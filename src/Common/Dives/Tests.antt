-- ===== src/Common/Dives/Tests.antt =====
-- The download of two dives.
use libdc_swift.Prelude.{
  ℕ, ◌+◌, ◌≡◌, refl, drop, err, overrun, true, List, [], ◌∷◌, ok, replicate, arith, ◌%◌, Bool, Call,
  slice, All,
}
use libdc_swift.Atom2.Layouts.First.{oceanic_default_layout}
use libdc_swift.Common.Profile.{first_pass}
use libdc_swift.Common.Profile.Stretch.{IsRing}
use libdc_swift.Common.Dives.{device_profile}
use libdc_swift.Common.Dives.Matching.{open_counted, read_counted, go_on}
use libdc_swift.Common.Base.{Base}
use libdc_swift.Common.Foreach.{Allocations, profiles_of}
use libdc_swift.Common.Dives.Handed.{IsDive}
use libdc_swift.Common.Dives.Handed.Download.{entries_of, profiles_of-IsDive}
use libdc_swift.Common.Dives.Exact.{device_profile-first_pass}

-- Page 0x100 to page 0x104, and page 0x105 to page 0x10A.
abbrev logbook : List ℕ
logbook = 0 ∷ 0 ∷ 0 ∷ 0 ∷ 0 ∷ 0x00 ∷ 0x41 ∷ 0x10 ∷ 0 ∷ 0 ∷ 0 ∷ 0 ∷ 0 ∷ 0x05 ∷ 0xA1 ∷ 0x10 ∷ []

default-IsRing : IsRing oceanic_default_layout
default-IsRing = omega arith

device_profile-first_pass_example :
    (device_profile open_counted
      (read_counted (λ n w. replicate n 0))
      go_on
      true
      oceanic_default_layout
      logbook
      0).1
    ≡ 0 + (first_pass oceanic_default_layout logbook).profile_size
device_profile-first_pass_example =
    device_profile-first_pass oceanic_default_layout default-IsRing (λ n w. replicate n 0) logbook 0
      refl

-- A byte is missing: the walk over the entries would go on before the first one.
cut_off :
    (device_profile open_counted
      (read_counted (λ n w. replicate n 0))
      go_on
      true
      oceanic_default_layout
      (drop 1 logbook)
      0).0
    ≡ err overrun
unfolding device_profile
cut_off = refl

downloaded :
    device_profile open_counted
      (read_counted (λ n w. replicate n 0))
      go_on
      true
      oceanic_default_layout
      logbook
      0
    ≡ (ok tt, 0xB0)
unfolding device_profile
downloaded = refl

-- Each byte of the memory is its address. The state is the list of the dives that were handed over.
abbrev memory : ℕ → ℕ
memory a = a % 256

abbrev read_memory : ℕ → ℕ → Call (List (List ℕ)) (List ℕ)
read_memory a n w = (ok (slice memory a n), w)

abbrev hand_over : List ℕ → List (List ℕ) → Bool × List (List ℕ)
hand_over dive w = (true, dive ∷ w)

abbrev device : Base
device = record {
  firmware = 0;
  version = [];
  fingerprint = [];
  layout = oceanic_default_layout;
  multipage = 1;
}

abbrev all_well : Allocations
all_well = record {
  buffer = true;
  logbook = true;
  logbook_stream = true;
  profile_stream = true;
  profiles = true;
}

abbrev AllDives : List (List ℕ) → Type 0
AllDives w =
    All (IsDive memory oceanic_default_layout (entries_of oceanic_default_layout logbook)) w

handed_over_are_dives :
    AllDives (profiles_of read_memory (λ v w. w) (λ i w. w) hand_over all_well device logbook []).1
handed_over_are_dives =
    profiles_of-IsDive AllDives (λ e. ⊥) memory read_memory (λ v w. w) (λ i w. w) hand_over all_well
      device default-IsRing logbook [] (λ a w k aligned lo hi. (refl, k)) (λ dive w k is. (is, k))
      tt
