-- ===== src/Bridge/Descriptors/Prefixed.antt =====
-- Names that begin with the model code of an Oceanic dive computer.
use mathlib.Core.List.{Memᴰ}
use mathlib.Core.List.Memᴰ.{head, tail}
use libdc_swift.Prelude.{
  sym, append-nil, ℕ, ◌/◌, ◌%◌, ◌≡◌, refl, ◌∙◌, ap, Bool, true, false, List, [], ◌∷◌, ◌++◌, ok,
  none, arith, Text, ◌==◌, ◌||◌, ◌&&◌,
}
use libdc_swift.Atom2.Versions.{Version, versions}
use libdc_swift.Bridge.Types.{Descriptor, State}
use libdc_swift.Bridge.Platform.{Platform}
use libdc_swift.Bridge.Descriptors.Patterns.{name_patterns}
use libdc_swift.Bridge.Descriptors.{first, is_accepted, find_descriptor_by_name}
use libdc_swift.Bridge.Descriptors.Reference.{choose, result_of, find_descriptor_by_name_lem}
use libdc_swift.Bridge.Descriptors.Mistaken.{IsDigits, all_avoid, choose-avoid}

-- The first two characters of the name of a dive computer with this model code.
abbrev pub model_prefix : ℕ → Text
model_prefix model = model / 256 % 256 ∷ model % 256 ∷ []

-- The patterns A1, A2, G2, G3, S1 and DS may begin at the last character of such a model code.
abbrev pub is_shadowable : ℕ → Bool
is_shadowable model = (model % 256 == b'A') || ((model % 256 == b'G') || (model % 256 == b'S'))

abbrev unshadowed : List Version → Bool
unshadowed [] = true
unshadowed (v ∷ vs) =
    (is_shadowable v.model || all_avoid (model_prefix v.model) name_patterns) && unshadowed vs

unshadowed-avoid :
    (vs : List Version) {v : Version}
    → unshadowed vs ≡ true
    → Memᴰ v vs
    → is_shadowable v.model ≡ false
    → all_avoid (model_prefix v.model) name_patterns ≡ true
unshadowed-avoid [] h m f = elim m [ ]
unshadowed-avoid (x ∷ vs) h (head e) f = ground (arith, ap Version.model e)
unshadowed-avoid (x ∷ vs) h (tail m) f = unshadowed-avoid vs (ground arith) m f

versions-unshadowed : unshadowed versions ≡ true
unfolding versions name_patterns
versions-unshadowed = refl

choose-nil : (table : List Descriptor) (name : Text) → choose table [] name ≡ none
unfolding choose
choose-nil table name = refl

-- With a table of descriptors that does not change: the name of a dive computer in the driver's
-- table of versions, its model code and the digits of its serial number, is left to the filters and
-- their check of the model code, and no pattern of another maker takes it, unless the model code
-- ends with A, G or S.
pub find_descriptor_by_name-model_prefix :
    {W : Type 0} (platform : Platform W) (table : List Descriptor) (v : Version) (serial : Text)
    (s : State W)
    → ((w : W) → (it : ℕ) × (env : W) × (platform.descriptor_iterator w ≡ (ok (it, table), env)))
    → Memᴰ v versions
    → is_shadowable v.model ≡ false
    → IsDigits serial
    → (find_descriptor_by_name platform (model_prefix v.model ++ serial) s).0
      ≡ result_of (first (is_accepted platform (model_prefix v.model ++ serial)) table)
find_descriptor_by_name-model_prefix platform table v serial s fixed known f digits =
    let name = model_prefix v.model in
    let avoided = unshadowed-avoid versions versions-unshadowed known f in
    let chosen : choose table name_patterns (name ++ serial) ≡ none =
      ap (λ ps. choose table ps (name ++ serial)) (sym (append-nil name_patterns))
      ∙ (choose-avoid table name_patterns [] name serial digits avoided
          ∙ choose-nil table (name ++ serial)) in
    find_descriptor_by_name_lem platform table fixed (name ++ serial) s ∙ rw chosen
