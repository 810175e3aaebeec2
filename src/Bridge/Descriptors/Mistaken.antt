-- ===== src/Bridge/Descriptors/Mistaken.antt =====
-- Names of Oceanic and Pelagic dive computers, two letters and the digits of the serial number,
-- against the patterns of other makers.
use libdc_swift.Prelude.{
  ℕ, ◌≡◌, ◌≢◌, refl, ◌∙◌, Bool, true, false, List, [], ◌∷◌, ◌++◌, some, ok, arith, All, Text,
  contains, starts_with, contains_absent, codes, ◌==◌, leb, ◌&&◌, ◌||◌, not, take, drop,
}
use libdc_swift.Bridge.Types.{Descriptor, State}
use libdc_swift.Bridge.Platform.{Platform}
use libdc_swift.Bridge.Descriptors.Patterns.{
  NamePattern, name_patterns, matches, matches_as, MatchType, exact, prefix, substring,
}
use libdc_swift.Bridge.Descriptors.{first, is_named, find_descriptor_by_name}
use libdc_swift.Bridge.Descriptors.Reference.{choose, find_descriptor_by_name_lem}

abbrev pub is_digit : ℕ → Bool
is_digit c = leb b'0' c && leb c b'9'

abbrev pub IsDigits : Text → Type 0
IsDigits = All (λ c. is_digit c ≡ true)

-- The pattern is not where `name` starts, in a text that goes on with digits.
abbrev pub differs : Text → Text → Bool
differs [] (p ∷ ps) = not (is_digit p)
differs _ [] = false
differs (c ∷ cs) (p ∷ ps) = not (p == c) || differs cs ps

-- The pattern begins nowhere in a text that starts with `name` and goes on with digits.
abbrev pub avoids : Text → Text → Bool
avoids [] (p ∷ ps) = not (is_digit p)
avoids _ [] = false
avoids (c ∷ cs) (p ∷ ps) = differs (c ∷ cs) (p ∷ ps) && avoids cs (p ∷ ps)

abbrev pub all_avoid : Text → List NamePattern → Bool
all_avoid name [] = true
all_avoid name (p ∷ ps) = avoids name p.text && all_avoid name ps

starts_with-differs :
    (name rest p : Text)
    → IsDigits rest
    → differs name p ≡ true
    → starts_with p (name ++ rest) ≡ false
unfolding starts_with
starts_with-differs [] [] [] d h = absurd (cc)
starts_with-differs [] (r ∷ rs) [] d h = absurd (cc)
starts_with-differs (c ∷ cs) rest [] d h = absurd (cc)
starts_with-differs [] [] (p ∷ ps) d h = refl
starts_with-differs [] (r ∷ rs) (p ∷ ps) d h = ground (arith, d.0)
starts_with-differs (c ∷ cs) rest (p ∷ ps) d h = ground (arith, starts_with-differs cs rest ps d)

IsDigits-absent : (p : ℕ) (ds : Text) → is_digit p ≡ false → IsDigits ds → All (λ c. c ≢ p) ds
IsDigits-absent p [] h d = tt
IsDigits-absent p (c ∷ cs) h d = (λ e. ground arith, IsDigits-absent p cs h d.1)

contains-avoids :
    (name p ds : Text) → IsDigits ds → avoids name p ≡ true → contains p (name ++ ds) ≡ false
unfolding contains
contains-avoids [] [] ds d h = absurd (cc)
contains-avoids [] (p ∷ ps) ds d h = contains_absent p ps ds (IsDigits-absent p ds (ground arith) d)
contains-avoids (c ∷ cs) [] ds d h = absurd (cc)
contains-avoids (c ∷ cs) (p ∷ ps) ds d h =
    ground (arith, starts_with-differs (c ∷ cs) ds (p ∷ ps) d, contains-avoids cs (p ∷ ps) ds d)

starts_with-contains : (p t : Text) → contains p t ≡ false → starts_with p t ≡ false
unfolding contains
starts_with-contains p [] h = h
starts_with-contains p (c ∷ cs) h = ground arith

matches_as-contains : (m : MatchType) (p t : Text) → contains p t ≡ false → matches_as m p t ≡ false
unfolding matches_as
matches_as-contains exact p t h = h
matches_as-contains prefix p t h = starts_with-contains p t h
matches_as-contains substring p t h = h

pub choose-avoid :
    (table : List Descriptor) (ps qs : List NamePattern) (name ds : Text)
    → IsDigits ds
    → all_avoid name ps ≡ true
    → choose table (ps ++ qs) (name ++ ds) ≡ choose table qs (name ++ ds)
unfolding choose matches
choose-avoid table [] qs name ds d h = refl
choose-avoid table (p ∷ ps) qs name ds d h =
    let no =
      matches_as-contains p.match_type p.text (name ++ ds)
        (contains-avoids name p.text ds d (ground arith)) in
    rw no (choose-avoid table ps qs name ds d (ground arith))

choose-match :
    (table : List Descriptor) (p : NamePattern) (ps : List NamePattern) (name : Text)
    {d : Descriptor}
    → matches p name ≡ true
    → first (is_named p) table ≡ some d
    → choose table (p ∷ ps) name ≡ some d
unfolding choose
choose-match table p ps name m h = rw (m, h)

-- The pattern of the Oceans S1.
abbrev pub oceans_s1 : NamePattern
oceans_s1 = record {
  text = codes "S1";
  vendor = codes "Oceans";
  product = codes "S1";
  match_type = exact;
}

choose-s1 :
    (table : List Descriptor) (ds : Text) {d : Descriptor}
    → IsDigits ds
    → first (is_named oceans_s1) table ≡ some d
    → choose table name_patterns (codes "FS1" ++ ds) ≡ some d
unfolding name_patterns matches
choose-s1 table ds digits h =
    choose-avoid table (take 41 name_patterns) (drop 41 name_patterns) (codes "FS1") ds digits refl
    ∙ choose-match table oceans_s1 _ (codes "FS1" ++ ds) refl h

-- An Oceanic Geo 4.0 (model 0x4653, "FS") whose serial number begins with 1 is taken for an Oceans
-- S1, whatever the filters say: "S1" occurs in its name, and the patterns are tried before the
-- filters and without their check of the model prefix.
pub geo_4-mistaken :
    {W : Type 0} (platform : Platform W) (table : List Descriptor) (serial : Text) (s : State W)
    (d : Descriptor)
    → ((w : W) → (it : ℕ) × (env : W) × (platform.descriptor_iterator w ≡ (ok (it, table), env)))
    → IsDigits serial
    → first (is_named oceans_s1) table ≡ some d
    → (find_descriptor_by_name platform (codes "FS1" ++ serial) s).0 ≡ ok d
geo_4-mistaken platform table serial s d fixed digits h =
    find_descriptor_by_name_lem platform table fixed (codes "FS1" ++ serial) s
    ∙ rw (choose-s1 table serial digits h)
