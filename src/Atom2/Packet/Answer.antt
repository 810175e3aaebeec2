-- ===== src/Atom2/Packet/Answer.antt =====
-- What a successful transfer has verified.
use libdc_swift.Prelude.{
  ℕ, zero, suc, ◌+◌, ◌-◌, ◌%◌, ◌≤◌, ◌≡◌, ◌≢◌, sym, inl, inr, ◌⊎◌, true, List, length, take, drop,
  get_or, ok, err, bind, Result, Call, arith, Bool-cases, bind-eq-ok, >>-eq-ok, ◌>>◌,
}
use libdc_swift.Libdc.{Stream, is_ble}
use libdc_swift.Atom2.Types.{State, u32}
use libdc_swift.Atom2.Frame.{ble_write}
use libdc_swift.Atom2.Frame.Answers.{Answers, ble_read_sound}
use libdc_swift.Atom2.Packet.{
  Command, is_command, check_cancelled, wait_delay, send, receive, verify, crc_matches,
  next_sequence, conclude, exchange, packet, retry, back_off, attempts, transfer, is_retryable,
}

retry-ok :
    {S A : Type 0} (r : Result A × S) (again : S → Result A × S) {a : A} {s' : S}
    → retry r again ≡ (ok a, s')
    → (r ≡ (ok a, s')) ⊎ ((t : S) × (again t ≡ (ok a, s')))
unfolding retry
retry-ok (ok b, s) again h = inl h
retry-ok (err e, s) again h = elim (Bool-cases (is_retryable e)) [
  | inl t ↦ inr (s, rw t at h)
  | inr f ↦ absurd (cc (rw f at h))
]

module _ {W : Type 0} (iostream : Stream W) where
  -- The answer `p`, of which `answer` is handed on, has the expected first byte, all bytes that
  -- were asked for and, where it carries data, the right checksum.
  pub record IsVerified (c : Command) (p answer : List ℕ) : Type 0 where
    pub first : get_or p 0 0 ≡ c.ack
    pub enough : 1 + c.asize + c.crc_size ≤ length p
    pub checked :
        c.asize ≢ 0 → crc_matches iostream c.crc_size (length p - (1 + c.crc_size)) p ≡ true
    pub handed_on : answer ≡ take c.asize (drop 1 p)

  verify_sound :
      (c : Command) (p : List ℕ) {answer : List ℕ}
      → verify iostream c (length p) p ≡ ok answer
      → IsVerified c p answer
  unfolding verify
  verify_sound c p h = record {
    first = ground arith;
    enough = ground arith;
    checked = ground arith;
    handed_on = ground arith;
  }

  -- A successful transfer ends with a successful exchange.
  pub attempts-ok :
      (left : ℕ) (c : Command) (s : State W) {answer : List ℕ} {s' : State W}
      → attempts iostream left c s ≡ (ok answer, s')
      → (t : State W) × (packet iostream c t ≡ (ok answer, s'))
  unfolding attempts
  attempts-ok zero c s h = (s, h)
  attempts-ok (suc left) c s {answer} {s'} h = elim (retry-ok (packet iostream c s) _ h) [
    | inl e ↦ (s, e)
    | inr (t, e) ↦ attempts-ok left c (back_off iostream t) e
  ]

  -- `answer`, with which a call ended in the state `s'`, was taken from a valid answer of the dive
  -- computer to `c`: the bytes of `c` were sent under the sequence number of the device, and the
  -- next packets, numbered in order under the same number, are an answer that is verified.
  pub record IsAnswered (c : Command) (answer : List ℕ) (s' : State W) : Type 0 where
    pub sequence : ℕ
    pub started : W
    pub before : W
    pub asked : ble_write iostream (sequence % 256) c.bytes started ≡ (ok tt, before)
    pub reply : List ℕ
    pub answers : Answers iostream (sequence % 256) 0 before reply s'.env
    pub verified : IsVerified c reply answer
    pub counted : s'.dev.sequence ≡ u32 (sequence + 1)

  send_sound :
      (bytes : List ℕ) (s : State W) {u : Unit {0}} {s' : State W}
      → is_ble iostream.transport ≡ true
      → send iostream bytes s ≡ (ok u, s')
      → (ble_write iostream (s.dev.sequence % 256) bytes s.env ≡ (ok tt, s'.env)) × (s'.dev ≡ s.dev)
  unfolding send
  send_sound bytes s over_ble h =
      let e = rw over_ble at h in ((λ i. ((e i).0, (e i).1.env)), sym (λ i. (e i).1.dev))

  receive_sound :
      (c : Command) (s : State W) {n : ℕ} {p : List ℕ} {s' : State W}
      → is_ble iostream.transport ≡ true
      → receive iostream c s ≡ (ok (n, p), s')
      → Answers iostream (s.dev.sequence % 256) 0 s.env p s'.env × (n ≡ length p) × (s'.dev ≡ s.dev)
  unfolding receive
  receive_sound c s over_ble h =
      let e = rw over_ble at h in
      let (answers, counted, _) =
        ble_read_sound iostream (s.dev.sequence % 256) _ (λ i. ((e i).0, (e i).1.env)) in
      (answers, counted, sym (λ i. (e i).1.dev))

  conclude_sound :
      (c : Command) (n : ℕ) (p : List ℕ) (s : State W) {answer : List ℕ} {s' : State W}
      → conclude iostream c (n, p) s ≡ (ok answer, s')
      → (verify iostream c n p ≡ ok answer)
        × (s'.env ≡ s.env)
        × (s'.dev.sequence ≡ u32 (s.dev.sequence + 1))
  unfolding conclude next_sequence
  conclude_sound c n p s h = ground arith

  reading_sound :
      (c : Command) (s2 s3 s4 : State W) (reply : ℕ × List ℕ) {u : Unit {0}} {answer : List ℕ}
      {s' : State W}
      → is_ble iostream.transport ≡ true
      → send iostream c.bytes s2 ≡ (ok u, s3)
      → receive iostream c s3 ≡ (ok reply, s4)
      → conclude iostream c reply s4 ≡ (ok answer, s')
      → IsAnswered c answer s'
  reading_sound c s2 s3 s4 (n, p) over_ble sent received concluded =
      let (asked, kept) = send_sound c.bytes s2 over_ble sent in
      let (answers, size, same) = receive_sound c s3 over_ble received in
      let (verified, quiet, counted) = conclude_sound c n p s4 concluded in
      record {
        sequence = s3.dev.sequence;
        started = s2.env;
        before = s3.env;
        asked = rw kept asked;
        reply = p;
        answers = rw quiet answers;
        verified = verify_sound c p (rw size at verified);
        counted = rw same at counted;
      }

  exchange_sound :
      (c : Command) (s : State W) {answer : List ℕ} {s' : State W}
      → is_ble iostream.transport ≡ true
      → exchange iostream c s ≡ (ok answer, s')
      → IsAnswered c answer s'
  unfolding exchange
  exchange_sound c s over_ble h =
      let reading : Call (State W) (List ℕ) =
        λ t. bind (receive iostream c t) (conclude iostream c) in
      let sending : Call (State W) (List ℕ) = send iostream c.bytes >> reading in
      let waiting : Call (State W) (List ℕ) = wait_delay iostream >> sending in
      let (_, s1, _, h1) = >>-eq-ok (check_cancelled iostream) waiting s h in
      let (_, s2, _, h2) = >>-eq-ok (wait_delay iostream) sending s1 h1 in
      let (_, s3, sent, h3) = >>-eq-ok (send iostream c.bytes) reading s2 h2 in
      let (reply, s4, received, h4) = bind-eq-ok (receive iostream c s3) (conclude iostream c) h3 in
      reading_sound c s2 s3 s4 reply over_ble sent received h4

  -- Over Bluetooth, a successful transfer returns data of one valid answer of the dive computer:
  -- the command's bytes were sent under the sequence number of the device, and the answer is what
  -- was read directly after them. Its packets were numbered in order under the same number, it
  -- begins with the expected byte, has all bytes that were asked for and, where it carries data,
  -- has the right checksum. The sequence number is then counted up.
  pub transfer_sound :
      (c : Command) (s : State W) {answer : List ℕ} {s' : State W}
      → is_ble iostream.transport ≡ true
      → transfer iostream c s ≡ (ok answer, s')
      → IsAnswered c answer s'
  unfolding transfer packet
  transfer_sound c s over_ble h =
      let (t, e) = attempts-ok 2 c s h in
      elim (Bool-cases (is_command c)) [
        | inl good ↦ exchange_sound c t over_ble (rw good at e)
        | inr bad ↦ absurd (cc (rw bad at e))
      ]
