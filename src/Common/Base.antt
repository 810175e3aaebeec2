-- ===== src/Common/Base.antt =====
-- The device of the Oceanic drivers, `oceanic_common_device_t`, its fingerprint, what is read from
-- its configuration pages, and its memory as a whole: oceanic_common.c and `device_dump_read` of
-- device.c, of libdivecomputer/src.
pub mod Dump
mod Tests
use libdc_swift.Prelude.{
  ℕ, zero, suc, ◌+◌, ◌-◌, ◌*◌, ◌/◌, ◌%◌, Bool, List, [], ◌∷◌, ◌++◌, ltb, ◌==◌, if◌then◌else◌,
  length, get_or, take, drop, replicate, Call, Result, ok, err, ◌>>=◌, ◌>>◌, return, fail,
  invalid_args, no_memory, out_of_fuel,
}
use libdc_swift.Libdc.{DevInfo}
use libdc_swift.Atom2.Types.{u32, page_size}
use libdc_swift.Atom2.Packet.{array_uint16_le}
use libdc_swift.Atom2.Layouts.Shape.{Layout}

-- `oceanic_common_device_t`, with the fields that the functions on a layout use.
pub record Base : Type 0 where
  pub firmware : ℕ
  pub version : List ℕ
  pub fingerprint : List ℕ
  pub layout : Layout
  pub multipage : ℕ

-- `oceanic_common_device_set_fingerprint`; `size` is the length of `bytes`.
unfoldable pub set_fingerprint : List ℕ → Call Base (Unit {0})
set_fingerprint bytes d =
    let size = length bytes in
    let fpsize = d.layout.rb_logbook_entry_size in
    let rest = drop fpsize d.fingerprint in
    if size == 0
    then (ok tt, record d { fingerprint = replicate fpsize 0 ++ rest })
    else if size == fpsize
    then (ok tt, record d { fingerprint = bytes ++ rest })
    else (err invalid_args, d)

-- `bcd2dec`
pub bcd2dec : ℕ → ℕ
bcd2dec value = value / 16 % 16 * 10 + value % 16

-- `array_convert_bin2dec` and `array_convert_bcd2dec`, from a value on. They wrap at 2 ^ 32.
pub convert_bin2dec : ℕ → List ℕ → ℕ
convert_bin2dec value [] = value
convert_bin2dec value (b ∷ bs) = convert_bin2dec (u32 (value * 100 + b)) bs

pub convert_bcd2dec : ℕ → List ℕ → ℕ
unfolding bcd2dec
convert_bcd2dec value [] = value
convert_bcd2dec value (b ∷ bs) = convert_bcd2dec (u32 (value * 100 + bcd2dec b)) bs

-- `array_uint16_be`
pub array_uint16_be : List ℕ → ℕ → ℕ
array_uint16_be buf i = get_or buf i 0 * 256 + get_or buf (i + 1) 0

-- The digits of a serial number that has the low digit of each byte first.
pub swapped_digits : ℕ → ℕ
swapped_digits b = b % 16 * 10 + b / 16 % 16

pub serial_of : ℕ → List ℕ → ℕ
unfolding convert_bin2dec convert_bcd2dec swapped_digits
serial_of pt_mode_serial id =
    if pt_mode_serial == 0
    then convert_bcd2dec 0 (take 3 (drop 10 id))
    else if pt_mode_serial == 1
    then convert_bin2dec 0 (take 3 (drop 11 id))
    else swapped_digits (get_or id 11 0) * 10000
      + swapped_digits (get_or id 12 0) * 100
      + swapped_digits (get_or id 13 0)

unfoldable pub devinfo_of : Base → List ℕ → DevInfo
unfolding serial_of array_uint16_be
devinfo_of d id = record {
  model = array_uint16_be id 8;
  firmware = d.firmware;
  serial = serial_of d.layout.pt_mode_serial id;
}

-- The addresses between which the logbook and the profiles are.
pub record Pointers : Type 0 where
  pub rb_logbook_begin : ℕ
  pub rb_logbook_end : ℕ
  pub rb_profile_begin : ℕ
  pub rb_profile_end : ℕ

unfoldable pub pointers_of : Layout → List ℕ → Pointers
unfolding array_uint16_le
pointers_of l bytes = record {
  rb_logbook_begin = array_uint16_le bytes 4;
  rb_logbook_end =
      array_uint16_le bytes 6 + (if l.pt_mode_global == 0 then l.rb_logbook_entry_size else 0);
  rb_profile_begin = array_uint16_le bytes 8;
  rb_profile_end = array_uint16_le bytes 10;
}

-- `read` is `dc_device_read` on the device; `emit_vendor` and `emit_devinfo` are the callbacks for
-- DC_EVENT_VENDOR and DC_EVENT_DEVINFO.
module _ {W : Type 0} (read : ℕ → ℕ → Call W (List ℕ)) where
  -- `oceanic_common_device_devinfo`
  unfoldable pub device_devinfo : (List ℕ → W → W) → (DevInfo → W → W) → Base → Call W (Unit {0})
  unfolding devinfo_of
  device_devinfo emit_vendor emit_devinfo d = do
    id ← read d.layout.cf_devinfo page_size
    λ w. (ok tt, emit_devinfo (devinfo_of d id) (emit_vendor d.version w))

  -- `oceanic_common_device_pointers`
  unfoldable pub device_pointers : Layout → Call W Pointers
  unfolding pointers_of
  device_pointers l = do bytes ← read l.cf_pointers page_size; return (pointers_of l bytes)

  -- The loop of `device_dump_read`; `left` bytes are left to read. A block has at least one byte,
  -- so as many rounds as bytes are enough fuel.
  pub dump_rounds : ℕ → ℕ → ℕ → ℕ → List ℕ → Call W (List ℕ)
  dump_rounds zero address left blocksize out = if ltb 0 left then fail out_of_fuel else return out
  dump_rounds (suc fuel) address left blocksize out =
      let len = if ltb blocksize left then blocksize else left in
      let round : Call W (List ℕ) = do
        bytes ← read address len
        dump_rounds fuel (u32 (address + len)) (left - len) blocksize (out ++ bytes)
      in if ltb 0 left then round else return out

  unfoldable pub device_dump_read : ℕ → ℕ → ℕ → Call W (List ℕ)
  unfolding dump_rounds
  device_dump_read address size blocksize = dump_rounds size address size blocksize []

  -- `oceanic_common_device_dump`; `memory` says whether the buffer could be resized.
  unfoldable pub device_dump : (List ℕ → W → W) → (DevInfo → W → W) → Bool → Base → Call W (List ℕ)
  unfolding device_devinfo device_dump_read
  device_dump emit_vendor emit_devinfo memory d =
      let dump : Call W (List ℕ) = do
        device_devinfo emit_vendor emit_devinfo d
        device_dump_read 0 d.layout.memsize (page_size * d.multipage)
      in if memory then dump else fail no_memory
