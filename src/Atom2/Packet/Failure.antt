-- ===== src/Atom2/Packet/Failure.antt =====
-- Which failures a transfer does not repeat.
use libdc_swift.Prelude.{
  ℕ, ◌-◌, ◌≤◌, ◌<◌, ◌≡◌, refl, ◌∙◌, true, false, List, get_or, ok, err, Error, unsupported, arith,
  eq→==, ne→==,
}
use libdc_swift.Libdc.{Stream}
use libdc_swift.Atom2.Types.{State}
use libdc_swift.Atom2.Packet.{
  Command, is_command, check_cancelled, wait_delay, send, receive, verify, conclude, exchange,
  packet, retry, attempts, transfer, is_retryable,
}

module _ {W : Type 0} (iostream : Stream W) where
  verify_nak :
      (c : Command) (n : ℕ) (p : List ℕ)
      → 0 < n
      → c.ack ≤ 255
      → get_or p 0 0 ≡ 255 - c.ack
      → verify iostream c n p ≡ err unsupported
  unfolding verify
  verify_nak c n p some_bytes small first = rw (
    ne→== {a = n} {b = 0} (omega arith),
    first,
    ne→== {a = 255 - c.ack} {b = c.ack} (omega arith),
    eq→== {a = 255 - c.ack} refl,
  )

  pub exchange_reply :
      (c : Command) (s s1 s2 s3 : State W) (n : ℕ) (p : List ℕ)
      → check_cancelled iostream s ≡ (ok tt, s1)
      → send iostream c.bytes (wait_delay iostream s1).1 ≡ (ok tt, s2)
      → receive iostream c s2 ≡ (ok (n, p), s3)
      → exchange iostream c s ≡ conclude iostream c (n, p) s3
  unfolding exchange wait_delay
  exchange_reply c s s1 s2 s3 n p started sent received = rw (started, sent, received)

  pub packet_of_command :
      (c : Command) (s : State W)
      → is_command c ≡ true
      → packet iostream c s ≡ exchange iostream c s
  unfolding packet
  packet_of_command c s h = rw h

  -- A transfer that is not repeated ends as its first exchange does.
  transfer_once :
      (c : Command) (s : State W) {e : Error} {s' : State W}
      → packet iostream c s ≡ (err e, s')
      → is_retryable e ≡ false
      → transfer iostream c s ≡ (err e, s')
  unfolding transfer attempts retry
  transfer_once c s h f = rw (h, f)

  -- An answer that begins with the complement of the expected byte (a NAK, where an ACK is
  -- expected) ends a transfer with DC_STATUS_UNSUPPORTED after that one exchange: the command is
  -- not sent again.
  pub transfer_nak :
      (c : Command) (s s1 s2 s3 : State W) (n : ℕ) (p : List ℕ)
      → is_command c ≡ true
      → c.ack ≤ 255
      → check_cancelled iostream s ≡ (ok tt, s1)
      → send iostream c.bytes (wait_delay iostream s1).1 ≡ (ok tt, s2)
      → receive iostream c s2 ≡ (ok (n, p), s3)
      → 0 < n
      → get_or p 0 0 ≡ 255 - c.ack
      → transfer iostream c s ≡ (err unsupported, s3)
  unfolding is_retryable conclude
  transfer_nak c s s1 s2 s3 n p command small started sent received some_bytes first =
      transfer_once c s
        (packet_of_command c s command
          ∙ (exchange_reply c s s1 s2 s3 n p started sent received
              ∙ rw (verify_nak c n p some_bytes small first)))
        refl
