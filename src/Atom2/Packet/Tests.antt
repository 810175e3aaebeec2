-- ===== src/Atom2/Packet/Tests.antt =====
-- Runs of exchanges.
use libdc_swift.Prelude.{
  ℕ, ◌+◌, ◌≡◌, refl, List, [], ◌∷◌, ok, err, unsupported, take, replicate, arith, timeout, ◌++◌,
}
use libdc_swift.Atom2.Types.{State, ack}
use libdc_swift.Atom2.Fixture.{Wire, scripted, blank, closed_device, at}
use libdc_swift.Atom2.Frame.{ble_read, ble_write}
use libdc_swift.Atom2.Packet.{
  Command, transfer, packet, exchange, check_cancelled, wait_delay, send, receive, verify, conclude,
  next_sequence, is_command,
}
use libdc_swift.Atom2.Packet.Answer.{IsAnswered, IsVerified, attempts-ok, transfer_sound}
use libdc_swift.Atom2.Packet.Effects.{Effect, transfer-Effect}
use libdc_swift.Atom2.Packet.Complete.{transfer_complete}
use libdc_swift.Atom2.Frame.{is_packet}
use libdc_swift.Atom2.Frame.Answers.{Answers, last}
use libdc_swift.Atom2.Packet.Failure.{transfer_nak}
use libdc_swift.Atom2.Packet.Tries.{Tries, transfer-Tries}

abbrev keepalive : Command
keepalive = record { bytes = 0x91 ∷ 0x05 ∷ 0xA5 ∷ []; ack = ack; asize = 0; crc_size = 0 }

-- The dive computer answers with one byte in one packet.
abbrev answering : ℕ → State Wire
answering byte = at ((0xCD ∷ 0xC0 ∷ 0 ∷ 1 ∷ byte ∷ []) ∷ [])

-- What was sent for the command.
abbrev sent : List (List ℕ)
sent = (0xCD ∷ 0x40 ∷ 0 ∷ 3 ∷ 0x91 ∷ 0x05 ∷ 0xA5 ∷ []) ∷ []

abbrev answered : State Wire
answered = record {
  dev = record closed_device { sequence = 1 };
  env = record { replies = []; sent = sent };
}

kept_alive : transfer scripted keepalive (answering 0x5A) ≡ (ok [], answered)
unfolding transfer ble_read ble_write
kept_alive = refl

transfer_sound_example : IsAnswered scripted keepalive [] answered
transfer_sound_example = transfer_sound scripted keepalive (answering 0x5A) refl kept_alive

transfer-Effect_example : Effect 2 closed_device (transfer scripted keepalive (answering 0x5A))
transfer-Effect_example = transfer-Effect scripted keepalive (answering 0x5A)

-- The state after the command was sent, and after its answer was read.
abbrev asked : ℕ → State Wire
asked byte = record (answering byte) {
  env = record { replies = (answering byte).env.replies; sent = sent };
}

abbrev refused : State Wire
refused = record { dev = closed_device; env = record { replies = []; sent = sent } }

transfer_nak_example : transfer scripted keepalive (answering 0xA5) ≡ (err unsupported, refused)
unfolding is_command check_cancelled wait_delay send receive ble_read ble_write
transfer_nak_example =
    transfer_nak scripted keepalive (answering 0xA5) (answering 0xA5) (asked 0xA5) refused 1
      (0xA5 ∷ []) refl (omega arith) refl refl refl (omega arith) refl

-- The command is refused, and not repeated.
transfer-Tries_example :
    Tries scripted keepalive 2 (answering 0xA5) (transfer scripted keepalive (answering 0xA5))
transfer-Tries_example = transfer-Tries scripted keepalive (answering 0xA5)

-- No answer comes: the command is sent three times.
three_times : transfer scripted keepalive (at []) ≡ (
  err timeout,
  record {
    dev = record closed_device { delay = 2 };
    env = record { replies = []; sent = sent ++ sent ++ sent };
  },
)
unfolding transfer ble_read ble_write
three_times = refl

-- The answer is on its way.
coming : Answers scripted 0 0 (asked 0x5A).env (0x5A ∷ []) refused.env
unfolding is_packet
coming = last (0xCD ∷ 0xC0 ∷ 0 ∷ 1 ∷ 0x5A ∷ []) refl refl refl refl

coming-IsVerified : IsVerified scripted keepalive (0x5A ∷ []) []
coming-IsVerified = record {
  first = refl;
  enough = omega arith;
  checked = λ e. absurd (e refl);
  handed_on = refl;
}

transfer_complete_example : transfer scripted keepalive (answering 0x5A) ≡ (ok [], answered)
unfolding is_command check_cancelled wait_delay send ble_write coming
transfer_complete_example =
    transfer_complete scripted keepalive (answering 0x5A) (answering 0x5A) (asked 0x5A) (0x5A ∷ [])
      [] coming refl refl refl refl (omega arith) (omega arith) coming-IsVerified

-- What the device with a memory of zeros answers.
blank-packet :
    (c : Command) (s : State (Unit {0})) {answer : List ℕ} {s' : State (Unit {0})}
    → packet blank c s ≡ (ok answer, s')
    → answer ≡ take c.asize (replicate (c.asize + c.crc_size) 0)
unfolding packet exchange check_cancelled wait_delay send receive conclude verify next_sequence
blank-packet c s h = ground arith

pub blank-transfer :
    (c : Command) (s : State (Unit {0})) {answer : List ℕ} {s' : State (Unit {0})}
    → transfer blank c s ≡ (ok answer, s')
    → answer ≡ take c.asize (replicate (c.asize + c.crc_size) 0)
unfolding transfer
blank-transfer c s h = let (t, e) = attempts-ok blank 2 c s h in blank-packet c t e
