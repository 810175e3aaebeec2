-- ===== src/Atom2/Session.antt =====
-- The commands of a session: version, passphrase, keepalive and quit, of
-- libdivecomputer/src/oceanic_atom2.c.
pub mod Unchanged
pub mod Handshake
mod Tests
use libdc_swift.Prelude.{
  ℕ, zero, suc, ◌+◌, ◌-◌, ◌*◌, ◌%◌, ◌^◌, Bool, List, [], ◌∷◌, ◌++◌, ltb, ◌==◌, if◌then◌else◌,
  length, take, drop, map, Call, Result, ok, err, Error, ◌>>=◌, ◌>>◌, bind, return, fail,
  unsupported, invalid_args,
}
use libdc_swift.Libdc.{Stream}
use libdc_swift.Atom2.Types.{State, on_env, ack, nak, u8, page_size}
use libdc_swift.Atom2.Packet.{Command, transfer}

abbrev pub simple : List ℕ → ℕ → Command
simple bytes expected = record { bytes = bytes; ack = expected; asize = 0; crc_size = 0 }

-- The string in a buffer: the bytes before the first NUL.
pub c_string : List ℕ → List ℕ
c_string [] = []
c_string (c ∷ cs) = if c == 0 then [] else c ∷ c_string cs

-- `name[i] - '0'` as an unsigned char
pub digit : ℕ → ℕ
digit c = u8 (c + 2 ^ 8 - b'0')

-- A call whose errors are all reported as DC_STATUS_IO.
pub as_io_error : {A : Type 0} → Result A → Result A
as_io_error (ok a) = ok a
as_io_error (err e) = err Error.io

module _ {W : Type 0} (iostream : Stream W) where
  unfoldable pub device_version : ℕ → Call (State W) (List ℕ)
  device_version size =
      if ltb size page_size
      then fail invalid_args
      else transfer iostream
          (record { bytes = 0x84 ∷ []; ack = ack; asize = page_size; crc_size = 1 })

  pub device_keepalive : Call (State W) (Unit {0})
  device_keepalive = transfer iostream (simple (0x91 ∷ 0x05 ∷ 0xA5 ∷ []) ack) >> return tt

  -- The device answers the quit command by NAK. The array of the source has four bytes.
  pub device_close : Call (State W) (Unit {0})
  device_close = transfer iostream (simple (0x6A ∷ 0x05 ∷ 0xA5 ∷ 0 ∷ []) nak) >> return tt

  -- The passphrase packet for a name of eight bytes: the last six as digits, two zero bytes, and
  -- the checksum of those eight.
  pub passphrase : List ℕ → List ℕ
  unfolding digit
  passphrase name =
      let body = map digit (take 6 (drop 2 name)) ++ 0 ∷ 0 ∷ [] in
      0xE5 ∷ body ++ iostream.checksum_add_uint8 body ∷ []

  -- What is done with the bytes that the ioctl wrote to the buffer of nine bytes.
  pub send_passphrase : List ℕ → Call (State W) (Unit {0})
  unfolding c_string as_io_error passphrase
  send_passphrase buf =
      let name = c_string (take 8 buf) in
      if ltb (length name) 8
      then fail Error.io
      else (λ s.
          let (r, s') = transfer iostream (simple (passphrase name) ack) s in (as_io_error r, s'))
        >> return tt

  -- A device without a name is let through.
  pub with_name : Result (List ℕ) → Call (State W) (Unit {0})
  unfolding send_passphrase
  with_name (ok buf) = send_passphrase buf
  with_name (err unsupported) = return tt
  with_name (err e) = fail e

  -- `oceanic_atom2_ble_handshake`
  unfoldable pub ble_handshake : Call (State W) (Unit {0})
  unfolding with_name
  ble_handshake s = let (r, s') = on_env (iostream.get_name 9) s in with_name r s'
