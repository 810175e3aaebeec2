-- ===== src/Atom2/Frame/Tests.antt =====
-- Runs of the packet format.
use libdc_swift.Prelude.{ℕ, ◌≤◌, ◌≡◌, ◌++◌, refl, List, [], ◌∷◌, ok, length, replicate, arith, ◌>>◌}
use libdc_swift.Atom2.Fixture.{Wire, scripted}
use libdc_swift.Atom2.Frame.{ble_read, ble_write, is_packet}
use libdc_swift.Atom2.Frame.Answers.{Answers, last, more, ble_read_sound}
use libdc_swift.Atom2.Frame.Complete.{ble_read_complete}
use libdc_swift.Atom2.Frame.Sending.{ble_write_one_packet, ble_write_repeats}

-- An answer in two packets to the command with number 7.
abbrev first : List ℕ
first = 0xCD ∷ 0xE0 ∷ 7 ∷ 2 ∷ 0x5A ∷ 1 ∷ []

abbrev second : List ℕ
second = 0xCD ∷ 0xC1 ∷ 7 ∷ 1 ∷ 9 ∷ []

abbrev two : Wire
two = record { replies = first ∷ second ∷ []; sent = [] }

abbrev one : Wire
one = record { replies = second ∷ []; sent = [] }

abbrev quiet : Wire
quiet = record { replies = []; sent = [] }

answers_two : Answers scripted 7 0 two (0x5A ∷ 1 ∷ 9 ∷ []) quiet
unfolding is_packet
answers_two = more first one (9 ∷ []) refl refl (λ e. cc) (last second refl refl refl refl) refl

read_two : ble_read scripted 7 3 two ≡ (ok (3, 0x5A ∷ 1 ∷ 9 ∷ []), quiet)
unfolding ble_read
read_two = refl

ble_read_sound_example :
    Answers scripted 7 0 two (0x5A ∷ 1 ∷ 9 ∷ []) quiet
    × (3 ≡ length {A = ℕ} (0x5A ∷ 1 ∷ 9 ∷ []))
    × (3 ≤ 3)
ble_read_sound_example = ble_read_sound scripted 7 3 read_two

ble_read_complete_example : ble_read scripted 7 3 two ≡ (ok (3, 0x5A ∷ 1 ∷ 9 ∷ []), quiet)
unfolding answers_two
ble_read_complete_example = ble_read_complete scripted 7 3 answers_two (omega arith)

-- The frame of the keepalive command.
keepalive_packet :
    ble_write scripted 7 (0x91 ∷ 0x05 ∷ 0xA5 ∷ []) quiet
    ≡ scripted.write (0xCD ∷ 0x40 ∷ 7 ∷ 3 ∷ 0x91 ∷ 0x05 ∷ 0xA5 ∷ []) quiet
keepalive_packet =
    ble_write_one_packet scripted 7 (0x91 ∷ 0x05 ∷ 0xA5 ∷ []) quiet (omega arith) (omega arith)

ble_write_repeats_example :
    ble_write scripted 7 (replicate 16 3 ++ 48 ∷ []) quiet
    ≡ (scripted.write (0xCD ∷ 0x60 ∷ 7 ∷ 16 ∷ replicate 16 3)
          >> scripted.write (0xCD ∷ 0x41 ∷ 7 ∷ 1 ∷ 3 ∷ []))
        quiet
ble_write_repeats_example =
    ble_write_repeats scripted 7 (replicate 16 3) (48 ∷ []) quiet refl (omega arith) (omega arith)
