-- ===== src/Common/Base/Tests.antt =====
-- The fingerprint, the device information and a dump of 48 bytes.
use libdc_swift.Prelude.{
  ℕ, ◌+◌, ◌%◌, ◌≡◌, refl, true, List, [], ◌∷◌, ◌++◌, ok, err, Call, slice, arith, replicate,
  invalid_args,
}
use libdc_swift.Atom2.Layouts.First.{oceanic_default_layout}
use libdc_swift.Common.RbStream.Standing.{Serves}
use libdc_swift.Common.Base.{
  Base, set_fingerprint, devinfo_of, device_dump, device_pointers, serial_of,
}
use libdc_swift.Common.Base.Dump.{device_dump-Serves}

abbrev device : Base
device = record {
  firmware = 7;
  version = [];
  fingerprint = replicate 10 1;
  layout = oceanic_default_layout;
  multipage = 1;
}

abbrev small_device : Base
small_device = record device { layout = record oceanic_default_layout { memsize = 48 } }

cleared : (set_fingerprint [] device).1.fingerprint ≡ replicate 8 0 ++ replicate 2 1
unfolding set_fingerprint
cleared = refl

too_short : set_fingerprint (replicate 7 5) device ≡ (err invalid_args, device)
unfolding set_fingerprint
too_short = refl

-- Model 0x4552, serial number 123456 in packed digits.
abbrev information : List ℕ
information = 0 ∷ 0 ∷ 0 ∷ 0 ∷ 0 ∷ 0 ∷ 0 ∷ 0 ∷ 0x45 ∷ 0x52 ∷ 0x12 ∷ 0x34 ∷ 0x56 ∷ 0 ∷ 0 ∷ 0 ∷ []

described : devinfo_of device information ≡ record { model = 0x4552; firmware = 7; serial = 123456 }
unfolding devinfo_of
described = refl

-- The digits of each byte are swapped.
swapped : serial_of 2 information ≡ 436500
unfolding serial_of
swapped = refl

abbrev memory : ℕ → ℕ
memory a = a % 256

abbrev read_memory : ℕ → ℕ → Call ℕ (List ℕ)
read_memory a n w = (ok (slice memory a n), w + 1)

pointed :
    (device_pointers read_memory oceanic_default_layout 0).0
    ≡ ok (record {
      rb_logbook_begin = 0x4544;
      rb_logbook_end = 0x474E;
      rb_profile_begin = 0x4948;
      rb_profile_end = 0x4B4A;
    })
unfolding device_pointers
pointed = refl

-- The information and three pages are read.
dumped :
    device_dump read_memory (λ v w. w) (λ i w. w) true small_device 0 ≡ (ok (slice memory 0 48), 4)
unfolding device_dump
dumped = refl

device_dump-Serves_example :
    Serves
      (λ (w : ℕ). Unit {0})
      (λ e. ⊥)
      (slice memory 0 48)
      (device_dump read_memory (λ v w. w) (λ i w. w) true small_device 0)
device_dump-Serves_example =
    device_dump-Serves (λ (w : ℕ). Unit {0}) (λ e. ⊥) memory read_memory (λ v w. w) (λ i w. w)
      small_device 0 (λ a n w k x y z. (refl, tt)) (λ v w k. tt) (λ i w k. tt) (omega arith) refl
      refl (omega arith) (omega arith) tt
