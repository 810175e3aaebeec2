-- ===== src/Atom2/Frame.antt =====
-- The packets of a command and of an answer over Bluetooth: `oceanic_atom2_ble_write` and
-- `oceanic_atom2_ble_read` of libdivecomputer/src/oceanic_atom2.c.
pub mod Answers
pub mod Complete
pub mod Sending
mod Tests
use libdc_swift.Prelude.{
  ℕ, zero, suc, ◌+◌, ◌-◌, ◌*◌, ◌/◌, ◌%◌, Bool, ◌&&◌, List, [], ◌∷◌, ◌++◌, ltb, leb, ◌==◌,
  if◌then◌else◌, length, get_or, take, drop, Call, ◌>>=◌, ◌>>◌, return, fail, protocol, out_of_fuel,
}
use libdc_swift.Libdc.{Stream}
use libdc_swift.Atom2.Types.{u8}

-- `sizeof (buf) - 4`
abbrev pub max_payload : ℕ
max_payload = 16

-- The buffer of one packet. `status | (pkt_seq & 0x1F)` is a sum: `status` is 0x40 or 0x60, whose
-- low five bits are clear. The payload is read from the start of `payload`.
pub frame : ℕ → ℕ → ℕ → ℕ → List ℕ → List ℕ
frame status pkt_seq cmd_seq len payload =
    0xcd ∷ (status + pkt_seq % 32) ∷ cmd_seq ∷ len ∷ take len payload

-- The tests of one received packet, in the order of the source; where one fails the source returns
-- DC_STATUS_PROTOCOL. `0xc0 | (pkt_seq & 0x1F) | (status & 0x20)` is a sum of separate bits.
unfoldable pub is_packet : ℕ → ℕ → List ℕ → Bool
is_packet cmd_seq pkt_seq buf =
    let status = get_or buf 1 0 in
    leb 4 (length buf)
    && (get_or buf 0 0 == 0xcd)
    && (status == 0xc0 + pkt_seq % 32 + status / 32 % 2 * 32)
    && (get_or buf 2 0 == cmd_seq)
    && leb (get_or buf 3 0 + 4) (length buf)

-- What the buffer of `size` bytes holds after a payload of `len` bytes: the bytes that still fit.
pub store : ℕ → ℕ → ℕ → List ℕ → List ℕ → List ℕ
store size nbytes len payload out =
    if ltb nbytes size
    then out ++ take (if ltb size (nbytes + len) then size - nbytes else len) payload
    else out

-- The check after the last packet, with the value of `*actual`.
pub finish : {W : Type 0} → ℕ → ℕ → List ℕ → Call W (ℕ × List ℕ)
finish size nbytes out = if ltb size nbytes then fail protocol else return (nbytes, out)

module _ {W : Type 0} (iostream : Stream W) (cmd_seq : ℕ) where
  -- The loop of `oceanic_atom2_ble_write` at `nbytes` and `pkt_seq`. A round sends at least one
  -- byte, so as many rounds as the command has bytes are enough fuel.
  pub write_loop : ℕ → List ℕ → ℕ → ℕ → Call W (Unit {0})
  unfolding frame
  write_loop zero payload nbytes pkt_seq = return tt
  write_loop (suc fuel) payload nbytes pkt_seq =
      let left = length payload - nbytes in
      let more = ltb max_payload left in
      let len = if more then max_payload else left in
      let status = if more then 0x60 else 0x40 in
      let round =
        iostream.write (frame status pkt_seq cmd_seq len payload)
        >> write_loop fuel payload (nbytes + len) (u8 (pkt_seq + 1)) in
      if ltb nbytes (length payload) then round else return tt

  unfoldable pub ble_write : List ℕ → Call W (Unit {0})
  unfolding write_loop
  ble_write payload = write_loop (length payload) payload 0 0

  -- The loop of `oceanic_atom2_ble_read` into a buffer of `size` bytes, of which `out` is written.
  pub read_loop : ℕ → ℕ → ℕ → ℕ → List ℕ → Call W (ℕ × List ℕ)
  unfolding is_packet store finish
  read_loop zero size nbytes pkt_seq out = fail out_of_fuel
  read_loop (suc fuel) size nbytes pkt_seq out = do
    buf ← iostream.read 20
    let len = get_or buf 3 0
    let out' = store size nbytes len (drop 4 buf) out
    let next = read_loop fuel size (nbytes + len) (u8 (pkt_seq + 1)) out'
    let last = get_or buf 1 0 / 32 % 2 == 0
    let accepted = if last then finish size (nbytes + len) out' else next
    if is_packet cmd_seq pkt_seq buf then accepted else fail protocol

  unfoldable pub ble_read : ℕ → Call W (ℕ × List ℕ)
  unfolding read_loop
  ble_read size = read_loop iostream.fuel size 0 0 []
