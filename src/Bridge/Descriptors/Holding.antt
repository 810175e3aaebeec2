-- ===== src/Bridge/Descriptors/Holding.antt =====
-- What the searches, the display name and the parser leave the bridge holding.
use libdc_swift.Prelude.{
  ℕ, ◌≡◌, ◌++◌, inl, inr, List, [], ◌∷◌, Option, none, some, ok, err, Result, bind, Call, arith,
  Bool-cases, Text,
}
use libdc_swift.Bridge.Types.{Descriptor, State, parser, owned_block}
use libdc_swift.Bridge.Platform.{Platform}
use libdc_swift.Bridge.Descriptors.Patterns.{NamePattern, name_patterns, matches}
use libdc_swift.Bridge.Descriptors.{
  is_named, is_accepted, search_table, or_else, by_patterns, or_by_filter, find_descriptor_by_name,
  get_device_info_from_name, name_of_result, get_formatted_device_name, find_descriptor_by_model,
  create_parser_for_device, parser_for,
}
use libdc_swift.Bridge.Descriptors.Models.{
  Same, search_table-Same, search-Same, allocate_name-Holds, find_descriptor_by_model-Finds,
}

Same-trans : {W : Type 0} {s s' s'' : State W} → Same s s' → Same s' s'' → Same s s''
Same-trans h k = ground arith

bind-Same :
    {W A B : Type 0} (s : State W) (p : Result A × State W) (f : A → Call (State W) B)
    → Same s p.1
    → ((a : A) (t : State W) → Same t (f a t).1)
    → Same s (bind p f).1
bind-Same s (ok a, t) f h k = Same-trans h (k a t)
bind-Same s (err e, t) f h k = h

module _ {W : Type 0} (platform : Platform W) where
  or_else-Same :
      (rest : Call (State W) (Option Descriptor)) (found : Option Descriptor) (s : State W)
      → ((t : State W) → Same t (rest t).1)
      → Same s (or_else platform rest found s).1
  unfolding or_else
  or_else-Same rest none s h = h s
  or_else-Same rest (some d) s h = ground arith

  by_patterns-Same :
      (ps : List NamePattern) (name : Text) (s : State W)
      → Same s (by_patterns platform ps name s).1
  unfolding by_patterns
  by_patterns-Same [] name s = ground arith
  by_patterns-Same (p ∷ ps) name s = elim (Bool-cases (matches p name)) [
    | inr f ↦ rw f (by_patterns-Same ps name s)
    | inl t ↦ rw t (
        bind-Same s (search_table platform (is_named p) s) _
          (search_table-Same platform (is_named p) s)
          (λ found s1. or_else-Same _ found s1 (by_patterns-Same ps name)))
  ]

  or_by_filter-Same :
      (name : Text) (found : Option Descriptor) (s : State W)
      → Same s (or_by_filter platform name found s).1
  unfolding or_by_filter
  or_by_filter-Same name none s = search-Same platform (is_accepted platform name) s
  or_by_filter-Same name (some d) s = ground arith

  find_descriptor_by_name-Same :
      (name : Text) (s : State W) → Same s (find_descriptor_by_name platform name s).1
  unfolding find_descriptor_by_name
  find_descriptor_by_name-Same name s =
      bind-Same s (by_patterns platform name_patterns name s) _
        (by_patterns-Same name_patterns name s) (λ found s1. or_by_filter-Same name found s1)

  pub get_device_info_from_name-Same :
      (name : Text) (s : State W) → Same s (get_device_info_from_name platform name s).1
  unfolding get_device_info_from_name
  get_device_info_from_name-Same name s =
      bind-Same s (find_descriptor_by_name platform name s) _ (find_descriptor_by_name-Same name s)
        (λ d s1. ground arith)

  name_of_result-Holds :
      (s : State W) (p : Result Descriptor × State W)
      → Same s p.1
      → ((name_of_result platform p).1.held ≡ owned_block (name_of_result platform p).0 ++ s.held)
        × ((name_of_result platform p).1.bad_releases ≡ s.bad_releases)
  unfolding name_of_result
  name_of_result-Holds s (ok d, s1) h = ground (arith, allocate_name-Holds platform d s1)
  name_of_result-Holds s (err e, s1) h = ground arith

  -- The name of a dive computer for display is a new block, the only thing acquired, which the
  -- caller has to free; without a name nothing is acquired. The iterators are given back.
  pub get_formatted_device_name-Holds :
      (name : Text) (s : State W)
      → let (block_of, s') = get_formatted_device_name platform name s in
        (s'.held ≡ owned_block block_of ++ s.held) × (s'.bad_releases ≡ s.bad_releases)
  unfolding get_formatted_device_name
  get_formatted_device_name-Holds name s =
      name_of_result-Holds s (find_descriptor_by_name platform name s)
        (find_descriptor_by_name-Same name s)

  -- A call that acquires a parser, or nothing.
  abbrev pub AcquiresParser : State W → Result ℕ × State W → Type 0
  AcquiresParser s (ok p, s') = (s'.held ≡ parser p ∷ s.held) × (s'.bad_releases ≡ s.bad_releases)
  AcquiresParser s (err e, s') = (s'.held ≡ s.held) × (s'.bad_releases ≡ s.bad_releases)

  parser_for-AcquiresParser :
      (context : ℕ) (bytes : List ℕ) (s : State W) (p : Result Descriptor × State W)
      → Same s p.1
      → AcquiresParser s (bind p (λ d. parser_for platform context bytes d))
  unfolding parser_for
  parser_for-AcquiresParser context bytes s (ok d, s1) h = ground arith
  parser_for-AcquiresParser context bytes s (err e, s1) h = ground arith

  -- Making a parser acquires the parser and nothing else, or it fails and acquires nothing: the
  -- iterator of the search for the model is given back on every path.
  pub create_parser_for_device-AcquiresParser :
      (context family model : ℕ) (bytes : List ℕ) (s : State W)
      → AcquiresParser s (create_parser_for_device platform context family model bytes s)
  unfolding create_parser_for_device
  create_parser_for_device-AcquiresParser context family model bytes s =
      parser_for-AcquiresParser context bytes s (find_descriptor_by_model platform family model s)
        (find_descriptor_by_model-Finds platform family model s).1
