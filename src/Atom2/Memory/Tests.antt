-- ===== src/Atom2/Memory/Tests.antt =====
-- Downloads from a device whose memory holds zeros.
use libdc_swift.Prelude.{
  ℕ, zero, suc, ◌+◌, ◌*◌, ◌/◌, ◌%◌, ◌≤◌, ◌≡◌, refl, sym, ap, ◌∙◌, inl, inr, true, [], ◌∷◌, some,
  take, replicate, slice, arith,
}
use libdc_swift.Atom2.Types.{State}
use libdc_swift.Atom2.Layouts.{layout_of, aqualung_i770r}
use libdc_swift.Atom2.Fixture.{blank, closed_device}
use libdc_swift.Atom2.Packet.Tests.{blank-transfer}
use libdc_swift.Atom2.Memory.{Mode, mode_of, read_command, device_read, device_write, highmem_of}
use libdc_swift.Atom2.Memory.Cache.{Geometry, Truthful, CacheOk}
use libdc_swift.Atom2.Memory.Writing.{device_write-CacheOk}
use libdc_swift.Atom2.Memory.Rounds.{IsValid}
use libdc_swift.Atom2.Memory.Serving.{IsReady, ReadFails}
use libdc_swift.Atom2.Memory.Download.{device_logbook-device_read}
use libdc_swift.Atom2.Layouts.Second.{aqualung_i770r_layout}
use libdc_swift.Common.Ring.{ringbuffer_distance}
use libdc_swift.Common.Base.{Base}
use libdc_swift.Atom2.Memory.Foreach.{
  reading, telling, handing, IsDownloading, device_foreach-device_read,
}
use libdc_swift.Common.Foreach.{Allocations, device_foreach}
use libdc_swift.Common.Foreach.New.{IsDownloadable}
use libdc_swift.Common.Logbook.{device_logbook, direction_of, start_of}
use libdc_swift.Common.Logbook.Entries.{entries}
use libdc_swift.Common.Logbook.Download.{IsLogbook, Downloads}
use libdc_swift.Atom2.Memory.Reading.{IsRead, device_read-IsRead, CacheOk-empty}

abbrev low : Mode
low = record { read_cmd = 0xB8; crc_size = 2; pagesize = 256; highmem = 0 }

abbrev i770r : Geometry
i770r = record { low = low; bigpage = 16; top = 0x40000; memsize = 0x640000 }

abbrev opened : State (Unit {0})
opened = record {
  dev = record closed_device { layout = some aqualung_i770r; bigpage = 16 };
  env = tt;
}

take-replicate : (n m : ℕ) → n ≤ m → take {A = ℕ} n (replicate m 0) ≡ replicate n 0
take-replicate zero m h = refl
take-replicate (suc n) zero h = absurd (omega arith)
take-replicate (suc n) (suc m) h = ap (λ xs. 0 ∷ xs) (take-replicate n m (omega arith))

slice-zero : (a n : ℕ) → slice {A = ℕ} (λ _. 0) a n ≡ replicate n 0
slice-zero a zero = refl
slice-zero a (suc n) = ap (λ xs. 0 ∷ xs) (slice-zero (a + 1) n)

i770r-IsValid : IsValid i770r
i770r-IsValid = omega arith

blank-Truthful : Truthful blank i770r (λ _. 0)
unfolding read_command
blank-Truthful m page s answer s' used inside h =
    blank-transfer (read_command m 16 page) s h
    ∙ (take-replicate m.pagesize (m.pagesize + m.crc_size) (omega arith)
        ∙ sym (slice-zero (m.highmem + page * m.pagesize) m.pagesize))

-- Nothing was downloaded before.
abbrev base : Base
base = record {
  firmware = 0;
  version = [];
  fingerprint = replicate 0x200 1;
  layout = aqualung_i770r_layout;
  multipage = 1;
}

base-IsLogbook : IsLogbook base
base-IsLogbook = omega arith

opened-IsReady : IsReady blank i770r (λ _. 0) opened
unfolding highmem_of layout_of mode_of
opened-IsReady = record {
  low = refl;
  top = refl;
  same_bigpage = refl;
  cache_ok = CacheOk-empty blank i770r (λ _. 0) opened.dev i770r-IsValid refl;
}

-- Four entries over the border of the ring.
four_over_the_border :
    let n = ringbuffer_distance 0xFFE0 0x2020 true 0x2000 0x10000 in
    Downloads
      (λ _. 0)
      (IsReady blank i770r (λ _. 0))
      (ReadFails blank i770r (λ _. 0))
      (device_read blank)
      (n % 16)
      (entries
        (λ _. 0)
        0x2000
        0x10000
        (direction_of aqualung_i770r_layout)
        16
        (start_of aqualung_i770r_layout (0xFFE0, 0x2020))
        (n / 16))
      (replicate 16 1)
      (device_logbook (device_read blank) true true base 0xFFE0 0x2020 opened)
four_over_the_border =
    device_logbook-device_read blank i770r (λ _. 0) base 0xFFE0 0x2020 0xFFE0 0x2020 opened
      i770r-IsValid blank-Truthful base-IsLogbook (omega arith)
      (inr (omega arith, omega arith, refl, inl (omega arith, refl))) opened-IsReady

-- The logbook starts at 0: the pointers, which are zeros, lie in it.
abbrev from_zero : Base
from_zero = record base { layout = record aqualung_i770r_layout { rb_logbook_begin = 0 } }

from_zero-IsDownloadable : IsDownloadable from_zero
from_zero-IsDownloadable = omega arith

abbrev all_well : Allocations
all_well = record {
  buffer = true;
  logbook = true;
  logbook_stream = true;
  profile_stream = true;
  profiles = true;
}

-- An entry is downloaded.
device_foreach-device_read_example :
    IsDownloading blank i770r
      (λ _. 0)
      from_zero
      (device_foreach
        (reading (device_read blank))
        (telling (λ v s. s))
        (telling (λ i s. s))
        (handing (λ dive s. (true, s)))
        all_well
        from_zero
        (opened, [])).1
device_foreach-device_read_example =
    device_foreach-device_read blank i770r (λ _. 0) from_zero (λ v s. s) (λ i s. s)
      (λ dive s. (true, s)) all_well opened i770r-IsValid blank-Truthful (omega arith)
      from_zero-IsDownloadable (λ v s k. k) (λ i s k. k) (λ dive s k. k) opened-IsReady

-- From 32 bytes below the high memory to 32 bytes into it.
device_read-IsRead_example :
    IsRead blank i770r (λ _. 0) 0x3FFE0 64 opened.dev (device_read blank 0x3FFE0 64 opened)
unfolding highmem_of layout_of mode_of
device_read-IsRead_example =
    device_read-IsRead blank i770r (λ _. 0) 0x3FFE0 64 opened i770r-IsValid blank-Truthful refl refl
      refl (CacheOk-empty blank i770r (λ _. 0) opened.dev i770r-IsValid refl) refl refl
      (omega arith)

-- A page is written.
device_write-CacheOk_example :
    CacheOk blank i770r (λ _. 0) (device_write blank 0x40 (replicate 16 0) opened).1.dev
device_write-CacheOk_example =
    device_write-CacheOk blank i770r (λ _. 0) 0x40 (replicate 16 0) opened i770r-IsValid refl refl
