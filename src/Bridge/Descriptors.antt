-- ===== src/Bridge/Descriptors.antt =====
-- How the bridge finds the descriptor of a dive computer in the table of libdivecomputer, by model
-- or by the name that it advertises: Sources/LibDCBridge/src/configuredc.c.
pub mod Patterns
pub mod Models
pub mod Names
pub mod Holding
pub mod Reference
pub mod Mistaken
pub mod Prefixed
mod Tests
use libdc_swift.Prelude.{
  ℕ, ◌+◌, ◌*◌, ◌/◌, ◌%◌, Bool, true, false, List, [], ◌∷◌, ◌++◌, Option, none, some, ltb, ◌&&◌,
  ◌||◌, not, ◌==◌, if◌then◌else◌, length, get_or, Call, Result, ok, err, Error, ◌>>=◌, ◌>>◌, bind,
  return, fail, unsupported, Text, text_eq, codes,
}
use libdc_swift.Bridge.Types.{
  Descriptor, Block, State, Resource, iterator, parser, block, acquire, release,
}
use libdc_swift.Bridge.Platform.{Platform, on_env, change_env}
use libdc_swift.Bridge.Stream.{malloc}
use libdc_swift.Bridge.Descriptors.Patterns.{NamePattern, name_patterns, matches}

-- `DC_FAMILY_OCEANIC_ATOM2` and `DC_FAMILY_PELAGIC_I330R`
abbrev pub family_oceanic_atom2 : ℕ
family_oceanic_atom2 = 4 * 65536 + 2

abbrev pub family_pelagic_i330r : ℕ
family_pelagic_i330r = 4 * 65536 + 3

-- The tests of the three loops over the descriptors.
pub has_model : ℕ → ℕ → Descriptor → Bool
has_model family model d = (d.family == family) && (d.model == model)

pub text_is : Option Text → Text → Bool
unfolding text_eq
text_is none t = false
text_is (some s) t = text_eq s t

pub is_named : NamePattern → Descriptor → Bool
unfolding text_is
is_named p d = text_is d.vendor p.vendor && text_is d.product p.product

-- For the Oceanic and Pelagic families the name begins with the two bytes of the model.
pub has_model_prefix : Text → Descriptor → Bool
has_model_prefix name d =
    not (ltb (length name) 2)
    && ((get_or name 0 0 == d.model / 256 % 256) && (get_or name 1 0 == d.model % 256))

abbrev pub is_narrowed : Descriptor → Bool
is_narrowed d = (d.family == family_oceanic_atom2) || (d.family == family_pelagic_i330r)

-- The first descriptor that passes a test.
pub first : (Descriptor → Bool) → List Descriptor → Option Descriptor
first test [] = none
first test (d ∷ ds) = if test d then some d else first test ds

-- `vendor` and `product` with a space between
abbrev pub full_name : Text → Text → Text
full_name vendor product = vendor ++ (codes " " ++ product)

pub or_unsupported : {W : Type 0} → Option Descriptor → Call W Descriptor
or_unsupported none = fail unsupported
or_unsupported (some d) = return d

module _ {W : Type 0} (platform : Platform W) where
  pub is_accepted : Text → Descriptor → Bool
  unfolding has_model_prefix
  is_accepted name d =
      (d.transports / 32 % 2 == 1)
      && (platform.descriptor_filter d name && (not (is_narrowed d) || has_model_prefix name d))

  -- A loop over the descriptors: an iterator is made, and freed at the first descriptor that passes
  -- the test or at the end.
  pub search_table : (Descriptor → Bool) → Call (State W) (Option Descriptor)
  unfolding first
  search_table test = do
    (it, table) ← on_env platform.descriptor_iterator
    λ s. (ok tt, acquire (iterator it) s)
    λ s. (ok tt, release (iterator it) (change_env (platform.iterator_free it) s))
    return (first test table)

  unfoldable pub find_descriptor_by_model : ℕ → ℕ → Call (State W) Descriptor
  unfolding search_table or_unsupported has_model
  find_descriptor_by_model family model = do
    found ← search_table (has_model family model)
    or_unsupported found

  -- `dc_parser_new2`
  pub parser_for : ℕ → List ℕ → Descriptor → Call (State W) ℕ
  parser_for context bytes d = do
    p ← on_env (platform.parser_new2 context d bytes)
    λ s. (ok p, acquire (parser p) s)

  pub create_parser_for_device : ℕ → ℕ → ℕ → List ℕ → Call (State W) ℕ
  unfolding find_descriptor_by_model parser_for
  create_parser_for_device context family model bytes =
      find_descriptor_by_model family model >>= parser_for context bytes

  -- What follows a search for a pattern's descriptor: `rest` are the patterns behind it.
  pub or_else :
      Call (State W) (Option Descriptor) → Option Descriptor → Call (State W) (Option Descriptor)
  or_else rest none = rest
  or_else rest (some d) = return (some d)

  -- The loop over the patterns.
  pub by_patterns : List NamePattern → Text → Call (State W) (Option Descriptor)
  unfolding matches search_table is_named or_else
  by_patterns [] name = return none
  by_patterns (p ∷ ps) name =
      let rest : Call (State W) (Option Descriptor) = by_patterns ps name in
      if matches p name then search_table (is_named p) >>= or_else rest else rest

  -- What follows the patterns: the search by the filters.
  pub or_by_filter : Text → Option Descriptor → Call (State W) Descriptor
  unfolding search_table or_unsupported is_accepted
  or_by_filter name none = search_table (is_accepted name) >>= or_unsupported
  or_by_filter name (some d) = return d

  pub find_descriptor_by_name : Text → Call (State W) Descriptor
  unfolding by_patterns or_by_filter name_patterns
  find_descriptor_by_name name = by_patterns name_patterns name >>= or_by_filter name

  -- `*family` and `*model`
  pub get_device_info_from_name : Text → Call (State W) (ℕ × ℕ)
  unfolding find_descriptor_by_name
  get_device_info_from_name name = do d ← find_descriptor_by_name name; return (d.family, d.model)

  -- A new block with the vendor and the product, where the descriptor has both and there is memory.
  pub allocate_name : Descriptor → State W → Option Block × State W
  unfolding malloc
  allocate_name d s =
      let (p, s1) = malloc platform s in
      elim d.vendor [
        | none ↦ (none, s)
        | some vendor ↦ elim d.product [
          | none ↦ (none, s)
          | some product ↦ elim p [
            | none ↦ (none, s1)
            | some a ↦ (
              some (record { address = a; bytes = full_name vendor product }),
              acquire (block a) s1,
            )
          ]
        ]
      ]

  -- The result of `get_formatted_device_name`, a null pointer being `none`.
  pub name_of_result : Result Descriptor × State W → Option Block × State W
  unfolding allocate_name
  name_of_result (ok d, s) = allocate_name d s
  name_of_result (err e, s) = (none, s)

  pub get_formatted_device_name : Text → State W → Option Block × State W
  unfolding find_descriptor_by_name name_of_result
  get_formatted_device_name name s = name_of_result (find_descriptor_by_name name s)
