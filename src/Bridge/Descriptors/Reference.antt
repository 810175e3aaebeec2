-- ===== src/Bridge/Descriptors/Reference.antt =====
-- `find_descriptor_by_name` against a plain description of its choice, for a table of descriptors
-- that does not change.
use libdc_swift.Prelude.{
  ℕ, ◌≡◌, refl, inl, inr, Bool, List, [], ◌∷◌, Option, none, some, ok, err, Result, bind, arith,
  Bool-cases, if◌then◌else◌, Text, unsupported,
}
use libdc_swift.Bridge.Types.{Descriptor, State}
use libdc_swift.Bridge.Platform.{Platform}
use libdc_swift.Bridge.Descriptors.Patterns.{NamePattern, name_patterns, matches}
use libdc_swift.Bridge.Descriptors.{
  first, is_named, is_accepted, search_table, or_else, by_patterns, or_by_filter, or_unsupported,
  find_descriptor_by_name,
}
use libdc_swift.Bridge.Descriptors.Models.{search_table-ok}

-- The first of two that is there.
abbrev pub or_option : Option Descriptor → Option Descriptor → Option Descriptor
or_option (some d) o = some d
or_option none o = o

-- What the patterns choose from a table: the first descriptor of the first pattern that matches the
-- name and has one.
unfoldable pub choose : List Descriptor → List NamePattern → Text → Option Descriptor
choose table [] name = none
choose table (p ∷ ps) name =
    or_option (if matches p name then first (is_named p) table else none) (choose table ps name)

abbrev pub result_of : Option Descriptor → Result Descriptor
result_of none = err unsupported
result_of (some d) = ok d

module _ {W : Type 0} (platform : Platform W) (table : List Descriptor)
    (fixed : (w : W)
      → (it : ℕ) × (env : W) × (platform.descriptor_iterator w ≡ (ok (it, table), env))) where
  search_fixed :
      (test : Descriptor → Bool) (s : State W)
      → (search_table platform test s).0 ≡ ok (first test table)
  search_fixed test s = search_table-ok platform test s (fixed s.env).2

  or_else-choose :
      (p : NamePattern) (ps : List NamePattern) (name : Text) (s : State W)
      (r : Result (Option Descriptor) × State W)
      → r.0 ≡ ok (first (is_named p) table)
      → ((s : State W) → (by_patterns platform ps name s).0 ≡ ok (choose table ps name))
      → (bind r (or_else platform (by_patterns platform ps name))).0
        ≡ ok (or_option (first (is_named p) table) (choose table ps name))
  unfolding or_else
  or_else-choose p ps name s (ok none, s1) e h = ground (arith, h s1)
  or_else-choose p ps name s (ok (some d), s1) e h = ground arith
  or_else-choose p ps name s (err x, s1) e h = absurd (cc)

  by_patterns-choose :
      (ps : List NamePattern) (name : Text) (s : State W)
      → (by_patterns platform ps name s).0 ≡ ok (choose table ps name)
  unfolding by_patterns choose
  by_patterns-choose [] name s = refl
  by_patterns-choose (p ∷ ps) name s = elim (Bool-cases (matches p name)) [
    | inl t ↦ rw t (
        or_else-choose p ps name s (search_table platform (is_named p) s)
          (search_fixed (is_named p) s) (by_patterns-choose ps name))
    | inr f ↦ rw f (by_patterns-choose ps name s)
  ]

  filter-result :
      (name : Text) (r : Result (Option Descriptor) × State W) (o : Option Descriptor)
      → r.0 ≡ ok o
      → (bind r (or_by_filter platform name)).0
        ≡ result_of (or_option o (first (is_accepted platform name) table))
  unfolding or_by_filter or_unsupported
  filter-result name (ok none, s) o h = ground (arith, search_fixed (is_accepted platform name) s)
  filter-result name (ok (some d), s) o h = ground arith
  filter-result name (err e, s) o h = absurd (cc)

  -- With a table of descriptors that does not change, the search by name ends with the first
  -- descriptor of the first pattern that matches the name and has one, else with the first
  -- descriptor that the filters accept, else with DC_STATUS_UNSUPPORTED.
  pub find_descriptor_by_name_lem :
      (name : Text) (s : State W)
      → (find_descriptor_by_name platform name s).0
        ≡ result_of
            (or_option (choose table name_patterns name) (first (is_accepted platform name) table))
  unfolding find_descriptor_by_name
  find_descriptor_by_name_lem name s =
      filter-result name (by_patterns platform name_patterns name s) _
        (by_patterns-choose name_patterns name s)
