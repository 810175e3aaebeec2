-- ===== src/Bridge/Descriptors/Patterns.antt =====
-- The table `name_patterns` of Sources/LibDCBridge/src/configuredc.c: which text in the advertised
-- name stands for which descriptor.
use Prim.Native.String.{String}
use libdc_swift.Prelude.{Bool, List, [], ◌∷◌, Text, codes, starts_with, contains}

-- MATCH_EXACT, MATCH_PREFIX and MATCH_CONTAINS
pub data MatchType : Type 0 where
  exact prefix substring : MatchType

-- `struct name_pattern`
pub record NamePattern : Type 0 where
  pub text : Text
  pub vendor : Text
  pub product : Text
  pub match_type : MatchType

abbrev pattern_of : String → String → String → MatchType → NamePattern
pattern_of text vendor product match_type = record {
  text = codes text;
  vendor = codes vendor;
  product = codes product;
  match_type = match_type;
}

-- The `switch` on the match type: `MATCH_EXACT` is tested by `strstr` too.
unfoldable pub matches_as : MatchType → Text → Text → Bool
unfolding starts_with contains
matches_as exact text name = contains text name
matches_as prefix text name = starts_with text name
matches_as substring text name = contains text name

unfoldable pub matches : NamePattern → Text → Bool
unfolding matches_as
matches p name = matches_as p.match_type p.text name

unfoldable pub name_patterns : List NamePattern
name_patterns =
    pattern_of "Predator" "Shearwater" "Predator" exact
    ∷ pattern_of "Perdix 2" "Shearwater" "Perdix 2" exact
    ∷ pattern_of "Petrel 3" "Shearwater" "Petrel 3" exact
    ∷ pattern_of "Petrel" "Shearwater" "Petrel 2" exact
    ∷ pattern_of "Perdix" "Shearwater" "Perdix" exact
    ∷ pattern_of "Teric" "Shearwater" "Teric" exact
    ∷ pattern_of "Peregrine TX" "Shearwater" "Peregrine TX" exact
    ∷ pattern_of "Peregrine" "Shearwater" "Peregrine TX" exact
    ∷ pattern_of "NERD 2" "Shearwater" "NERD 2" exact
    ∷ pattern_of "NERD" "Shearwater" "NERD" exact
    ∷ pattern_of "Tern" "Shearwater" "Tern" exact
    ∷ pattern_of "EON Steel" "Suunto" "EON Steel" exact
    ∷ pattern_of "Suunto D5" "Suunto" "D5" exact
    ∷ pattern_of "EON Core" "Suunto" "EON Core" exact
    ∷ pattern_of "G2" "Scubapro" "G2" exact
    ∷ pattern_of "HUD" "Scubapro" "G2 HUD" exact
    ∷ pattern_of "G3" "Scubapro" "G3" exact
    ∷ pattern_of "Aladin" "Scubapro" "Aladin Sport Matrix" exact
    ∷ pattern_of "A1" "Scubapro" "Aladin A1" exact
    ∷ pattern_of "A2" "Scubapro" "Aladin A2" exact
    ∷ pattern_of "Luna 2.0 AI" "Scubapro" "Luna 2.0 AI" exact
    ∷ pattern_of "Luna 2.0" "Scubapro" "Luna 2.0" exact
    ∷ pattern_of "Mares Genius" "Mares" "Genius" exact
    ∷ pattern_of "Sirius" "Mares" "Sirius" exact
    ∷ pattern_of "Quad Ci" "Mares" "Quad Ci" exact
    ∷ pattern_of "Puck4" "Mares" "Puck 4" exact
    ∷ pattern_of "CARESIO_" "Cressi" "Cartesio" prefix
    ∷ pattern_of "GOA_" "Cressi" "Goa" prefix
    ∷ pattern_of "Leonardo" "Cressi" "Leonardo 2.0" substring
    ∷ pattern_of "Donatello" "Cressi" "Donatello" substring
    ∷ pattern_of "Michelangelo" "Cressi" "Michelangelo" substring
    ∷ pattern_of "Neon" "Cressi" "Neon" substring
    ∷ pattern_of "Nepto" "Cressi" "Nepto" substring
    ∷ pattern_of "OSTC 3" "Heinrichs Weikamp" "OSTC Plus" exact
    ∷ pattern_of "OSTC s#" "Heinrichs Weikamp" "OSTC Sport" exact
    ∷ pattern_of "OSTC s " "Heinrichs Weikamp" "OSTC Sport" exact
    ∷ pattern_of "OSTC 4-" "Heinrichs Weikamp" "OSTC 4" exact
    ∷ pattern_of "OSTC 2-" "Heinrichs Weikamp" "OSTC 2N" exact
    ∷ pattern_of "OSTC + " "Heinrichs Weikamp" "OSTC 2" exact
    ∷ pattern_of "OSTC" "Heinrichs Weikamp" "OSTC 2" exact
    ∷ pattern_of "COSMIQ" "Deepblu" "Cosmiq+" exact
    ∷ pattern_of "S1" "Oceans" "S1" exact
    ∷ pattern_of "McLean Extreme" "McLean" "Extreme" exact
    ∷ pattern_of "DiveComputer" "Tecdiving" "DiveComputer.eu" exact
    ∷ pattern_of "DS" "Ratio" "iX3M 2021 GPS Easy" exact
    ∷ pattern_of "IX5M" "Ratio" "iX3M 2021 GPS Easy" exact
    ∷ pattern_of "RATIO-" "Ratio" "iX3M 2021 GPS Easy" exact
    ∷ []
