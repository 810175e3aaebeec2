-- ===== src/Atom2/Memory.antt =====
-- The memory of the dive computer: `oceanic_atom2_device_read`, with its page cache, and
-- `oceanic_atom2_device_write`, of libdivecomputer/src/oceanic_atom2.c.
pub mod Cache
pub mod Rounds
pub mod Reading
pub mod Writing
pub mod Serving
pub mod Download
pub mod Foreach
mod Tests
use libdc_swift.Prelude.{
  ℕ, zero, suc, ◌+◌, ◌-◌, ◌*◌, ◌/◌, ◌%◌, Bool, true, false, ◌&&◌, ◌||◌, not, List, [], ◌∷◌, ◌++◌,
  Option, none, some, ltb, leb, ◌==◌, if◌then◌else◌, length, take, drop, Call, Result, ok, err,
  ◌>>=◌, ◌>>◌, return, fail, invalid_args,
}
use libdc_swift.Libdc.{Stream}
use libdc_swift.Atom2.Layouts.{layout_of}
use libdc_swift.Atom2.Types.{Device, State, ack, u8, u32, invalid, page_size, repeat}
use libdc_swift.Atom2.Packet.{Command, transfer}
use libdc_swift.Atom2.Session.{simple, device_version, ble_handshake}

-- How the device is read at one place: the command, its checksum bytes, the size of a page and
-- where the high memory starts (0 below it).
pub record Mode : Type 0 where
  pub read_cmd : ℕ
  pub crc_size : ℕ
  pub pagesize : ℕ
  pub highmem : ℕ

-- `PROPLUS4`
abbrev pub proplus4 : ℕ
proplus4 = 0x4656

-- The `switch` on `device->bigpage`; `none` is its default.
unfoldable pub mode_of : Device → Option Mode
mode_of d =
    if d.bigpage == 1
    then some (record { read_cmd = 0xB1; crc_size = 1; pagesize = page_size; highmem = 0 })
    else if d.bigpage == 8
    then some (record {
      read_cmd = 0xB4;
      crc_size = if d.model == proplus4 then 2 else 1;
      pagesize = 8 * page_size;
      highmem = 0;
    })
    else if d.bigpage == 16
    then some (record { read_cmd = 0xB8; crc_size = 2; pagesize = 16 * page_size; highmem = 0 })
    else none

-- The switch to the high memory, at the start of a round at `address`. `top` is `layout->highmem`.
pub switch_mode : ℕ → ℕ → Mode → Mode
switch_mode top address m =
    if not (top == 0) && leb top address && (m.highmem == 0)
    then record { read_cmd = 0xF6; crc_size = 2; pagesize = 16 * page_size; highmem = top }
    else m

pub page_of : Mode → ℕ → ℕ
page_of m address = (address - m.highmem) / m.pagesize

-- The read command for a page; `bigpage` is `device->bigpage`.
pub read_command : Mode → ℕ → ℕ → Command
read_command m bigpage page =
    let number = if m.highmem == 0 then u32 (page * bigpage) else page in
    record {
      bytes = m.read_cmd ∷ u8 (number / 256) ∷ u8 number ∷ [];
      ack = ack;
      asize = m.pagesize;
      crc_size = m.crc_size;
    }

-- The prepare command of a write, and the packet that follows it.
pub prepare_bytes : ℕ → List ℕ
prepare_bytes address =
    let number = address / page_size in 0xB2 ∷ u8 (number / 256) ∷ u8 number ∷ []

pub drop_cache : {W : Type 0} → State W → State W
drop_cache s = record s { dev = record s.dev { cached_page = invalid; cached_highmem = invalid } }

-- How many bytes a round copies.
pub round_length : Mode → ℕ → ℕ → ℕ → ℕ
round_length m size address nbytes =
    let rest = m.pagesize - address % m.pagesize in
    if ltb size (u32 (nbytes + rest)) then size - nbytes else rest

-- `layout->highmem`. An opened device has a layout.
pub highmem_of : Device → ℕ
unfolding layout_of
highmem_of d = elim d.layout [ some l ↦ (layout_of l).highmem | none ↦ 0 ]

module _ {W : Type 0} (iostream : Stream W) where
  -- The repeated handshake, whose outcome is ignored.
  pub rehandshake : State W → State W
  rehandshake s =
      let d = s.dev in
      let counter = u32 (d.handshake_counter + 1) in
      let counted = record s { dev = record d { handshake_counter = counter } } in
      let (v, s1) = device_version iostream page_size counted in
      let (h, s2) = ble_handshake iostream s1 in
      let due = if counter % repeat == 0 then s2 else counted in
      if d.handshake_repeat then due else s

  -- The cache after a page was read into it.
  pub fill_cache : Mode → ℕ → List ℕ → State W → State W
  fill_cache m page answer s = record s {
    dev = record s.dev {
      cache = answer ++ drop (length answer) s.dev.cache;
      cached_page = page;
      cached_highmem = m.highmem;
    };
  }

  -- What follows the transfer of a page: on success it is cached.
  pub cache_page : Mode → ℕ → Result (List ℕ) × State W → Result (Unit {0}) × State W
  unfolding fill_cache
  cache_page m page (ok answer, s) = (ok tt, fill_cache m page answer s)
  cache_page m page (err e, s) = (err e, s)

  -- One round's work on the device: the page `page` is read, unless it is the cached one.
  pub load_page : Mode → ℕ → Call (State W) (Unit {0})
  unfolding rehandshake cache_page
  load_page m page s =
      let s' = rehandshake s in
      let read = cache_page m page (transfer iostream (read_command m s'.dev.bigpage page) s') in
      let cached = (page == s.dev.cached_page) && (m.highmem == s.dev.cached_highmem) in
      if cached then (ok tt, s) else read

  -- The loop of `oceanic_atom2_device_read`; `out` are the bytes copied so far. A round copies at
  -- least one byte, so as many rounds as `size` are enough fuel.
  pub read_rounds : ℕ → ℕ → ℕ → Mode → ℕ → ℕ → List ℕ → Call (State W) (List ℕ)
  unfolding switch_mode page_of load_page round_length
  read_rounds zero top size m address nbytes out = return out
  read_rounds (suc fuel) top size m address nbytes out =
      let m' = switch_mode top address m in
      let len = round_length m' size address nbytes in
      let round = load_page m' (page_of m' address) >> (λ s.
        read_rounds fuel top size m' (u32 (address + len)) (nbytes + len)
          (out ++ take len (drop (address % m'.pagesize) s.dev.cache)) s) in
      if ltb nbytes size then round else return out

  -- What is done in the mode that the `switch` gives.
  pub read_in : Option Mode → ℕ → ℕ → Call (State W) (List ℕ)
  unfolding highmem_of
  read_in (some m) address size s = read_rounds size (highmem_of s.dev) size m address 0 [] s
  read_in none address size s = (err invalid_args, s)

  pub device_read : ℕ → ℕ → Call (State W) (List ℕ)
  unfolding read_in
  device_read address size s =
      let aligned = (address % page_size == 0) && (size % page_size == 0) in
      if aligned then read_in (mode_of s.dev) address size s else (err invalid_args, s)

  -- The loop of `oceanic_atom2_device_write` over what is left to write. The buffer has `size`
  -- bytes, a multiple of the page size, so each round writes a whole page.
  pub write_rounds : ℕ → ℕ → List ℕ → Call (State W) (Unit {0})
  unfolding prepare_bytes
  write_rounds zero address left = return tt
  write_rounds (suc fuel) address left =
      let page = take page_size left in
      let round =
        transfer iostream (simple (prepare_bytes address) ack)
        >> (transfer iostream (simple (page ++ iostream.checksum_add_uint8 page ∷ []) ack)
            >> write_rounds fuel (u32 (address + page_size)) (drop page_size left)) in
      if ltb 0 (length left) then round else return tt

  pub device_write : ℕ → List ℕ → Call (State W) (Unit {0})
  unfolding drop_cache
  device_write address bytes s =
      let aligned = (address % page_size == 0) && (length bytes % page_size == 0) in
      if aligned
      then write_rounds (length bytes) address bytes (drop_cache s)
      else (err invalid_args, s)
