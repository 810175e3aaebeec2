-- ===== src/Atom2/Packet/Complete.antt =====
-- A transfer to a dive computer that answers.
use libdc_swift.Prelude.{
  ℕ, ◌+◌, ◌%◌, ◌≤◌, ◌≡◌, ◌∙◌, true, false, List, length, ok, arith, ◌==◌, ltb, not, ◌&&◌,
  if◌then◌else◌,
}
use libdc_swift.Libdc.{Stream, is_ble}
use libdc_swift.Atom2.Types.{State, u32, max_packet}
use libdc_swift.Atom2.Frame.Answers.{Answers, packets}
use libdc_swift.Atom2.Frame.Complete.{ble_read_complete}
use libdc_swift.Atom2.Packet.{
  Command, is_command, check_cancelled, wait_delay, send, receive, verify, next_sequence, conclude,
  retry, attempts, transfer,
}
use libdc_swift.Atom2.Packet.Answer.{IsVerified}
use libdc_swift.Atom2.Packet.Failure.{exchange_reply, packet_of_command}

module _ {W : Type 0} (iostream : Stream W) where
  verify_complete :
      (c : Command) (p : List ℕ) {answer : List ℕ}
      → IsVerified iostream c p answer
      → verify iostream c (length p) p ≡ ok answer
  unfolding verify
  verify_complete c p h = ground arith

  receive_complete :
      (c : Command) (s : State W) (p : List ℕ) {w' : W}
      (t : Answers iostream (s.dev.sequence % 256) 0 s.env p w')
      → is_ble iostream.transport ≡ true
      → is_command c ≡ true
      → packets iostream (s.dev.sequence % 256) t ≤ iostream.fuel
      → length p ≤ 1 + c.asize + c.crc_size
      → receive iostream c s ≡ (ok (length p, p), record s { env = w' })
  unfolding receive is_command
  receive_complete c s p t over_ble command fuelled fits =
      let room =
        if not (c.asize == 0) && s.dev.extra
        then 1 + max_packet + c.crc_size
        else 1 + c.asize + c.crc_size in
      let read = ble_read_complete iostream (s.dev.sequence % 256) room t fuelled in
      let short : ltb room (length p) ≡ false = ground arith in rw (over_ble, read, short)

  -- Over Bluetooth, a command that is sent, and answered by the dive computer in valid packets with
  -- the bytes that were asked for, beginning with the expected byte and with the right checksum,
  -- succeeds at the first attempt with the answer's data, and the sequence number is counted up. The
  -- fuel has to cover the packets of the answer.
  pub transfer_complete :
      (c : Command) (s s1 s2 : State W) (p answer : List ℕ) {w' : W}
      (t : Answers iostream (s2.dev.sequence % 256) 0 s2.env p w')
      → is_ble iostream.transport ≡ true
      → is_command c ≡ true
      → check_cancelled iostream s ≡ (ok tt, s1)
      → send iostream c.bytes (wait_delay iostream s1).1 ≡ (ok tt, s2)
      → packets iostream (s2.dev.sequence % 256) t ≤ iostream.fuel
      → length p ≤ 1 + c.asize + c.crc_size
      → IsVerified iostream c p answer
      → transfer iostream c s ≡ (
        ok answer,
        record { dev = record s2.dev { sequence = u32 (s2.dev.sequence + 1) }; env = w' },
      )
  unfolding transfer attempts retry conclude next_sequence
  transfer_complete c s s1 s2 p answer {w'} t over_ble command started sent fuelled fits good =
      let received = receive_complete c s2 p t over_ble command fuelled fits in
      let s3 : State W = record s2 { env = w' } in
      let exchanged = exchange_reply iostream c s s1 s2 s3 (length p) p started sent received in
      rw (packet_of_command iostream c s command ∙ exchanged, verify_complete c p good)
