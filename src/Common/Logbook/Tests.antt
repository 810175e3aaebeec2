-- ===== src/Common/Logbook/Tests.antt =====
-- The logbook of a dive computer with the default layout and 8 bytes in an entry.
use libdc_swift.Prelude.{
  ℕ, ◌+◌, ◌/◌, ◌%◌, ◌≡◌, refl, inl, inr, true, List, [], ◌++◌, ok, err, Call, slice, arith,
  replicate, overrun, data_format, text_eq, ltb, if◌then◌else◌,
}
use libdc_swift.Atom2.Layouts.First.{oceanic_default_layout}
use libdc_swift.Common.Ring.{ringbuffer_distance}
use libdc_swift.Common.RbStream.{rbstream_new, rbstream_read}
use libdc_swift.Common.Profile.{is_uninitialized}
use libdc_swift.Common.Base.{Base}
use libdc_swift.Common.Logbook.{device_logbook, direction_of, start_of}
use libdc_swift.Common.Logbook.Entries.{entries}
use libdc_swift.Common.Logbook.Download.{IsLogbook, Downloads, device_logbook-Downloads}

-- The entries are 8 times the same byte, 8 at 0x240, 9 at 0x248 and so on; from 0x270 on they are
-- uninitialized.
abbrev memory : ℕ → ℕ
memory a = if ltb a 0x270 then a / 8 % 64 else 0xFF

abbrev read_memory : ℕ → ℕ → Call ℕ (List ℕ)
read_memory a n w = (ok (slice memory a n), w + 1)

-- The entry at 0x258 was downloaded before.
abbrev device : Base
device = record {
  firmware = 0;
  version = [];
  fingerprint = replicate 0x200 0x0B;
  layout = oceanic_default_layout;
  multipage = 1;
}

new_dives :
    (device_logbook read_memory true true device 0x240 0x278 0).0
    ≡ ok (replicate 8 0x0C ++ (replicate 8 0x0D ++ replicate 8 0xFF))
unfolding device_logbook rbstream_new rbstream_read is_uninitialized text_eq
new_dives = refl

nothing_new : (device_logbook read_memory true true device 0x240 0x260 0).0 ≡ ok []
unfolding device_logbook rbstream_new rbstream_read is_uninitialized text_eq
nothing_new = refl

-- Four bytes remain in front of the entry at 0x248.
too_few_bytes : (device_logbook read_memory true true device 0x244 0x250 0).0 ≡ err overrun
unfolding device_logbook rbstream_new rbstream_read is_uninitialized text_eq
too_few_bytes = refl

bad_end : (device_logbook read_memory true true device 0x240 0 0).0 ≡ err data_format
unfolding device_logbook rbstream_new rbstream_read is_uninitialized text_eq
bad_end = refl

device-IsLogbook : IsLogbook device
device-IsLogbook = omega arith

device_logbook-Downloads_example :
    let n = ringbuffer_distance 0x240 0x278 true 0x240 0xA40 in
    Downloads memory
      (λ (w : ℕ). Unit {0})
      (λ e. ⊥)
      read_memory
      (n % 8)
      (entries memory 0x240 0xA40
        (direction_of oceanic_default_layout)
        8
        (start_of oceanic_default_layout (0x240, 0x278))
        (n / 8))
      (replicate 8 0x0B)
      (device_logbook read_memory true true device 0x240 0x278 0)
device_logbook-Downloads_example =
    device_logbook-Downloads memory (λ (w : ℕ). Unit {0}) (λ e. ⊥) read_memory device
      device-IsLogbook 0x240 0x278 0x240 0x278 0 (λ a w k aligned lo hi. (refl, tt))
      (inr (omega arith, omega arith, refl, inl (omega arith, refl))) tt
