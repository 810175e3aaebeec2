-- ===== src/Bridge/Descriptors/Names.antt =====
-- Which descriptor `find_descriptor_by_name` of Sources/LibDCBridge/src/configuredc.c settles on.
use libdc_swift.Prelude.{
  ◌/◌, ◌%◌, ◌≤◌, ◌≡◌, ap, ◌∙◌, ◌⊎◌, inl, inr, Bool, true, false, List, [], ◌∷◌, Option, none, some,
  ok, bind-eq-ok, Call, arith, All, Bool-cases, Result-cases, length, get_or, Text,
}
use libdc_swift.Bridge.Types.{Descriptor, State}
use libdc_swift.Bridge.Platform.{Platform}
use libdc_swift.Bridge.Descriptors.Patterns.{NamePattern, name_patterns, matches}
use libdc_swift.Bridge.Descriptors.{
  first, is_named, is_accepted, is_narrowed, has_model_prefix, search_table, or_else, by_patterns,
  or_by_filter, or_unsupported, find_descriptor_by_name,
}

first-passes :
    (test : Descriptor → Bool) (ds : List Descriptor) {d : Descriptor}
    → first test ds ≡ some d
    → test d ≡ true
unfolding first
first-passes test [] h = absurd (cc)
first-passes test (x ∷ ds) {d} h = ground (arith, first-passes test ds {d = d})

module _ {W : Type 0} (platform : Platform W) where
  search_table-passes :
      (test : Descriptor → Bool) (s : State W) {d : Descriptor} {s' : State W}
      → search_table platform test s ≡ (ok (some d), s')
      → test d ≡ true
  unfolding search_table
  search_table-passes test s h = elim (Result-cases (platform.descriptor_iterator s.env).0) [
    | inl (a, e) ↦ first-passes test a.1 (ground arith)
    | inr (x, e) ↦ ground arith
  ]

  or_else-named :
      (p : NamePattern) (s s1 : State W) (rest : Call (State W) (Option Descriptor))
      (found : Option Descriptor) {d : Descriptor} {s' : State W}
      → search_table platform (is_named p) s ≡ (ok found, s1)
      → or_else platform rest found s1 ≡ (ok (some d), s')
      → is_named p d ≡ false
      → rest s1 ≡ (ok (some d), s')
  unfolding or_else
  or_else-named p s s1 rest none e h n = h
  or_else-named p s s1 rest (some x) e h n = ground (arith, search_table-passes (is_named p) s e)

  by_patterns-named :
      (ps : List NamePattern) (name : Text) (s : State W) {d : Descriptor} {s' : State W}
      → by_patterns platform ps name s ≡ (ok (some d), s')
      → All (λ p. is_named p d ≡ false) ps
      → ⊥
  unfolding by_patterns
  by_patterns-named [] name s h n = cc
  by_patterns-named (p ∷ ps) name s h n = elim (Bool-cases (matches p name)) [
    | inr f ↦ by_patterns-named ps name s (rw f at h) n.1
    | inl t ↦
        let rest = by_patterns platform ps name in
        let (found, s1, e, h1) =
          bind-eq-ok (search_table platform (is_named p) s) (or_else platform rest) (rw t at h) in
        by_patterns-named ps name s1 (or_else-named p s s1 rest found e h1 n.0) n.1
  ]

  unsupported-some :
      (found : Option Descriptor) (s : State W) {d : Descriptor} {s' : State W}
      → or_unsupported found s ≡ (ok d, s')
      → found ≡ some d
  unfolding or_unsupported
  unsupported-some none s h = absurd (cc)
  unsupported-some (some x) s h = ground arith

  or_by_filter-accepted :
      (name : Text) (s : State W) (found : Option Descriptor) {d : Descriptor} {s' : State W}
      → or_by_filter platform name found s ≡ (ok d, s')
      → (found ≡ some d) ⊎ (is_accepted platform name d ≡ true)
  unfolding or_by_filter
  or_by_filter-accepted name s (some x) h = inl (ground arith)
  or_by_filter-accepted name s none h =
      let (o, s1, e, h1) =
        bind-eq-ok (search_table platform (is_accepted platform name) s) or_unsupported h in
      inr (
        search_table-passes (is_accepted platform name) s
          (e ∙ ap (λ o. (ok o, s1)) (unsupported-some o s1 h1)))

  accepted-narrowed :
      (name : Text) (d : Descriptor)
      → is_accepted platform name d ≡ true
      → is_narrowed d ≡ true
      → (d.transports / 32 % 2 ≡ 1)
        × (platform.descriptor_filter d name ≡ true)
        × (2 ≤ length name)
        × (get_or name 0 0 ≡ d.model / 256 % 256)
        × (get_or name 1 0 ≡ d.model % 256)
  unfolding is_accepted has_model_prefix
  accepted-narrowed name d h n = ground arith

  -- A descriptor of the Oceanic Atom 2 or Pelagic i330R family that is found by name, and that no
  -- pattern of the table names, talks over BLE, its own filter takes the name, and the name begins
  -- with the two bytes of its model number: such a dive computer is never opened as another model of
  -- its family.
  pub find_descriptor_by_name-narrowed :
      (name : Text) (s : State W) {d : Descriptor} {s' : State W}
      → find_descriptor_by_name platform name s ≡ (ok d, s')
      → is_narrowed d ≡ true
      → All (λ p. is_named p d ≡ false) name_patterns
      → (d.transports / 32 % 2 ≡ 1)
        × (platform.descriptor_filter d name ≡ true)
        × (2 ≤ length name)
        × (get_or name 0 0 ≡ d.model / 256 % 256)
        × (get_or name 1 0 ≡ d.model % 256)
  unfolding find_descriptor_by_name
  find_descriptor_by_name-narrowed name s {d} h narrowed n =
      let (found, s1, e, h1) =
        bind-eq-ok (by_patterns platform name_patterns name s) (or_by_filter platform name) h in
      elim (or_by_filter-accepted name s1 found h1) [
        | inl q ↦ absurd (by_patterns-named name_patterns name s (e ∙ ap (λ o. (ok o, s1)) q) n)
        | inr q ↦ accepted-narrowed name d q narrowed
      ]
