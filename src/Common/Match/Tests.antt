-- ===== src/Common/Match/Tests.antt =====
-- A version string of the Aqualung i770R.
use libdc_swift.Prelude.{◌≡◌, refl, some, codes}
use libdc_swift.Atom2.Versions.{Version, versions, pattern_bytes}
use libdc_swift.Atom2.Layouts.{aqualung_i770r}
use libdc_swift.Common.Match.{common_match}
use libdc_swift.Common.Match.Exclusive.{IsMatch, versions-IsMatch}

abbrev i770r : Version
i770r = record {
  pattern_text = pattern_bytes "AQUA770R ## ####";
  firmware = 0;
  model = 0x4651;
  layout = aqualung_i770r;
}

-- The firmware is the two characters 1B.
i770r-found : common_match (codes "AQUA770R 1B 4096") versions ≡ some (i770r, 0x3142)
unfolding common_match versions
i770r-found = refl

versions-IsMatch_example : IsMatch (codes "AQUA770R 1B 4096") versions i770r 0x3142
versions-IsMatch_example = versions-IsMatch (codes "AQUA770R 1B 4096") i770r-found
