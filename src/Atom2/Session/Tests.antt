-- ===== src/Atom2/Session/Tests.antt =====
-- Runs of the commands of a session.
use libdc_swift.Prelude.{ℕ, ◌≡◌, refl, List, [], ◌∷◌, ok, codes, ◌++◌}
use libdc_swift.Libdc.{Stream}
use libdc_swift.Atom2.Types.{State}
use libdc_swift.Atom2.Fixture.{Wire, scripted, closed_device, at}
use libdc_swift.Atom2.Frame.{ble_read, ble_write}
use libdc_swift.Atom2.Packet.{transfer}
use libdc_swift.Atom2.Session.{ble_handshake, device_keepalive, device_close}
use libdc_swift.Atom2.Session.Handshake.{Passed, ble_handshake-Passed}

-- The name of the device is known.
abbrev named : Stream Wire
named = record scripted { get_name = λ n w. (ok (codes "FQ001124" ++ 0 ∷ []), w) }

abbrev reply : ℕ → List ℕ
reply byte = 0xCD ∷ 0xC0 ∷ 0 ∷ 1 ∷ byte ∷ []

-- The command `bytes` was sent in one packet, and its answer was read.
abbrev done : List (List ℕ) → State Wire
done sent = record {
  dev = record closed_device { sequence = 1 };
  env = record { replies = []; sent = sent };
}

abbrev greeted : State Wire
greeted = done ((0xCD ∷ 0x40 ∷ 0 ∷ 10 ∷ 0xE5 ∷ 0 ∷ 0 ∷ 1 ∷ 1 ∷ 2 ∷ 4 ∷ 0 ∷ 0 ∷ 8 ∷ []) ∷ [])

shaken : ble_handshake named (at (reply 0x5A ∷ [])) ≡ (ok tt, greeted)
unfolding ble_handshake transfer ble_read ble_write
shaken = refl

ble_handshake-Passed_example : Passed named (at (reply 0x5A ∷ [])).env greeted
ble_handshake-Passed_example = ble_handshake-Passed named (at (reply 0x5A ∷ [])) refl shaken

kept_alive :
    device_keepalive scripted (at (reply 0x5A ∷ []))
    ≡ (ok tt, done ((0xCD ∷ 0x40 ∷ 0 ∷ 3 ∷ 0x91 ∷ 0x05 ∷ 0xA5 ∷ []) ∷ []))
unfolding device_keepalive transfer ble_read ble_write
kept_alive = refl

quit :
    device_close scripted (at (reply 0xA5 ∷ []))
    ≡ (ok tt, done ((0xCD ∷ 0x40 ∷ 0 ∷ 4 ∷ 0x6A ∷ 0x05 ∷ 0xA5 ∷ 0 ∷ []) ∷ []))
unfolding device_close transfer ble_read ble_write
quit = refl
