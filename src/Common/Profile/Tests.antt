-- ===== src/Common/Profile/Tests.antt =====
-- The first pass over a logbook with two dives.
use libdc_swift.Prelude.{ℕ, ◌≡◌, refl, List, [], ◌∷◌, false, arith}
use libdc_swift.Atom2.Layouts.First.{oceanic_default_layout}
use libdc_swift.Common.Profile.{first_pass}
use libdc_swift.Common.Profile.Stretch.{IsRing, IsStretch, first_pass-IsStretch}

-- Page 0x100 to page 0x104, and page 0x105 to page 0x10A.
abbrev logbook : List ℕ
logbook = 0 ∷ 0 ∷ 0 ∷ 0 ∷ 0 ∷ 0x00 ∷ 0x41 ∷ 0x10 ∷ 0 ∷ 0 ∷ 0 ∷ 0 ∷ 0 ∷ 0x05 ∷ 0xA1 ∷ 0x10 ∷ []

scanned : first_pass oceanic_default_layout logbook ≡ record {
  profile_begin = 0x1000;
  profile_end = 0x10B0;
  profile_size = 0xB0;
  remaining = 62736;
  previous = 0x1000;
  bad_format = false;
  stopped = false;
}
unfolding first_pass
scanned = refl

default-IsRing : IsRing oceanic_default_layout
default-IsRing = omega arith

first_pass-IsStretch_example :
    IsStretch oceanic_default_layout (first_pass oceanic_default_layout logbook)
first_pass-IsStretch_example =
    first_pass-IsStretch oceanic_default_layout logbook default-IsRing refl
