-- ===== src/Atom2/Packet.antt =====
-- One exchange with the dive computer, and its retries: `oceanic_atom2_packet` and
-- `oceanic_atom2_transfer` of libdivecomputer/src/oceanic_atom2.c.
pub mod Effects
pub mod Answer
pub mod Failure
pub mod Tries
pub mod Complete
pub mod Tests
use libdc_swift.Prelude.{
  ℕ, zero, suc, ◌+◌, ◌-◌, ◌*◌, ◌/◌, ◌%◌, Bool, true, false, ◌&&◌, ◌||◌, not, List, [], ◌∷◌, ltb,
  leb, ◌==◌, if◌then◌else◌, length, get_or, take, drop, Call, Result, ok, err, Error, ◌>>=◌, ◌>>◌,
  return, fail, protocol, timeout, unsupported, invalid_args, cancelled,
}
use libdc_swift.Libdc.{Stream, Direction, input, is_ble}
use libdc_swift.Atom2.Types.{Device, State, on_env, u32, max_packet, max_retries, max_delay}
use libdc_swift.Atom2.Frame.{ble_write, ble_read}

-- `array_uint16_le`
unfoldable pub array_uint16_le : List ℕ → ℕ → ℕ
array_uint16_le buf i = get_or buf i 0 + get_or buf (i + 1) 0 * 256

-- `rc` is one of those that `oceanic_atom2_transfer` retries.
pub is_retryable : Error → Bool
is_retryable timeout = true
is_retryable protocol = true
is_retryable _ = false

-- What `oceanic_atom2_packet` is asked to send and to expect.
pub record Command : Type 0 where
  pub bytes : List ℕ
  pub ack : ℕ
  pub asize : ℕ
  pub crc_size : ℕ

-- The tests of the arguments.
pub is_command : Command → Bool
is_command c = leb c.asize max_packet && leb c.crc_size 2 && (c.crc_size == 0 || not (c.asize == 0))

-- What a failed attempt comes to while retries are left: another attempt, or its error.
pub retry : {S A : Type 0} → Result A × S → (S → Result A × S) → Result A × S
unfolding is_retryable
retry (ok a, s) again = (ok a, s)
retry (err e, s) again = if is_retryable e then again s else (err e, s)

module _ {W : Type 0} (iostream : Stream W) where
  -- `device_is_cancelled (abstract)`
  pub check_cancelled : Call (State W) (Unit {0})
  check_cancelled s =
      let (stop, env) = iostream.is_cancelled s.env in
      (if stop then err cancelled else ok tt, record s { env = env })

  -- `if (device->delay) dc_iostream_sleep (device->iostream, device->delay)`
  pub wait_delay : Call (State W) (Unit {0})
  wait_delay s =
      (ok tt, if s.dev.delay == 0 then s else record s { env = iostream.sleep s.dev.delay s.env })

  pub send : List ℕ → Call (State W) (Unit {0})
  send bytes s =
      on_env
        (if is_ble iostream.transport
          then ble_write iostream (s.dev.sequence % 256) bytes
          else iostream.write bytes)
        s

  -- The bytes of an answer with their number. A byte that the stream did not deliver stands as 0
  -- where it is read: the source's buffer is not initialised there.
  pub receive : Command → Call (State W) (ℕ × List ℕ)
  receive c s =
      let expected = 1 + c.asize + c.crc_size in
      let excess = not (c.asize == 0) && s.dev.extra in
      let room = if excess then 1 + max_packet + c.crc_size else expected in
      on_env
        (if is_ble iostream.transport
          then ble_read iostream (s.dev.sequence % 256) room
          else (iostream.read_all expected >>= λ buf. return (expected, buf)))
        s

  -- The checksum that stands behind the `n` bytes of the answer, and the one of those bytes.
  pub crc_matches : ℕ → ℕ → List ℕ → Bool
  unfolding array_uint16_le
  crc_matches crc_size n packet =
      if crc_size == 2
      then array_uint16_le packet (1 + n) == iostream.checksum_add_uint16 (take n (drop 1 packet))
      else get_or packet (1 + n) 0 == iostream.checksum_add_uint8 (take n (drop 1 packet))

  -- The verification of an answer of `nbytes` bytes; the result is what is copied to `answer`.
  pub verify : Command → ℕ → List ℕ → Result (List ℕ)
  unfolding crc_matches
  verify c nbytes packet =
      let first = get_or packet 0 0 in
      let expected = 1 + c.asize + c.crc_size in
      if nbytes == 0
      then err protocol
      else if not (first == c.ack)
      then err (if first == 255 - c.ack then unsupported else protocol)
      else if ltb nbytes expected
      then err protocol
      else if not (c.asize == 0) && not (crc_matches c.crc_size (nbytes - (1 + c.crc_size)) packet)
      then err protocol
      else ok (take c.asize (drop 1 packet))

  -- `device->sequence++`
  pub next_sequence : Call (State W) (Unit {0})
  next_sequence s = (ok tt, record s { dev = record s.dev { sequence = u32 (s.dev.sequence + 1) } })

  -- What `oceanic_atom2_packet` does once the answer is there.
  pub conclude : Command → ℕ × List ℕ → Call (State W) (List ℕ)
  unfolding verify next_sequence
  conclude c reply = do answer ← λ s. (verify c reply.0 reply.1, s); next_sequence; return answer

  pub exchange : Command → Call (State W) (List ℕ)
  unfolding check_cancelled wait_delay send receive conclude
  exchange c = do check_cancelled; wait_delay; send c.bytes; reply ← receive c; conclude c reply

  pub packet : Command → Call (State W) (List ℕ)
  unfolding is_command exchange
  packet c = if is_command c then exchange c else fail invalid_args

  -- What the loop of `oceanic_atom2_transfer` does before the next attempt.
  pub back_off : State W → State W
  back_off s =
      let delay = if ltb s.dev.delay max_delay then s.dev.delay + 1 else s.dev.delay in
      record {
        dev = record s.dev { delay = delay };
        env = iostream.purge input (iostream.sleep 100 s.env);
      }

  -- The loop with `left` retries left.
  pub attempts : ℕ → Command → Call (State W) (List ℕ)
  unfolding packet retry back_off
  attempts zero c s = packet c s
  attempts (suc left) c s = retry (packet c s) (λ s'. attempts left c (back_off s'))

  unfoldable pub transfer : Command → Call (State W) (List ℕ)
  unfolding attempts
  transfer c = attempts max_retries c
