-- ===== src/Atom2/Session/Handshake.antt =====
-- What a successful BLE handshake means.
use mathlib.Core.Path.{subst}
use libdc_swift.Prelude.{
  ℕ, ◌+◌, ◌%◌, ◌≤◌, ◌<◌, ◌≡◌, ◌∙◌, sym, ap, ◌⊎◌, inl, inr, true, List, [], ◌∷◌, ◌++◌, length, take,
  drop, map, ok, err, unsupported, Result, arith, Bool-cases, ltb, ◌==◌, refl, bind, return, All,
  take_all, length-append, length-map, length-take,
}
use libdc_swift.Libdc.{Stream, is_ble}
use libdc_swift.Atom2.Types.{State, on_env, ack}
use libdc_swift.Atom2.Packet.{transfer}
use libdc_swift.Atom2.Frame.Sending.{ble_write_one_packet}
use libdc_swift.Atom2.Packet.Answer.{IsAnswered, transfer_sound}
use libdc_swift.Atom2.Session.{
  ble_handshake, with_name, send_passphrase, simple, passphrase, digit, c_string, as_io_error,
}

-- Each byte is the character less '0', on eight bits.
abbrev pub AreDigits : List ℕ → List ℕ → Type 0
AreDigits [] [] = Unit
AreDigits (c ∷ cs) (d ∷ ds) = ((d < 256) × ((d + 48) % 256 ≡ c % 256)) × AreDigits cs ds
AreDigits _ _ = ⊥

map-digit-AreDigits : (cs : List ℕ) → AreDigits cs (map digit cs)
unfolding digit
map-digit-AreDigits [] = tt
map-digit-AreDigits (c ∷ cs) = ((omega arith, omega arith), map-digit-AreDigits cs)

length-c_string : (cs : List ℕ) → length (c_string cs) ≤ length cs
unfolding c_string
length-c_string [] = omega arith
length-c_string (c ∷ cs) = elim (Bool-cases (c == 0)) [
  | inl end ↦ rw end (omega arith)
  | inr more ↦ rw more (omega (arith, length-c_string cs))
]

-- A string that has the length of its buffer is the buffer, which has no NUL.
c_string_whole :
    (cs : List ℕ) → length cs ≤ length (c_string cs) → (c_string cs ≡ cs) × All (λ c. 0 < c) cs
unfolding c_string
c_string_whole [] h = (refl, tt)
c_string_whole (c ∷ cs) h = elim (Bool-cases (c == 0)) [
  | inl end ↦ absurd (omega (arith, rw end at h))
  | inr more ↦
      let (same, all) = c_string_whole cs (omega (arith, rw more at h)) in
      (rw more (ap (λ x. c ∷ x) same), (ground (arith, more), all))
]

last_six :
    (cs : List ℕ) → length cs ≡ 8 → (take 6 (drop 2 cs) ≡ drop 2 cs) × (length (drop 2 cs) ≡ 6)
last_six [] h = absurd (omega arith)
last_six (a ∷ []) h = absurd (omega arith)
last_six (a ∷ b ∷ cs) h =
    let six : length cs ≡ 6 = omega arith in (ap (λ n. take n cs) (sym six) ∙ take_all cs, six)

module _ {W : Type 0} (iostream : Stream W) where
  -- The bytes of the passphrase with those digits: 0xE5, the digits, two zero bytes, and the
  -- checksum of digits and zero bytes.
  abbrev pub spelled : List ℕ → List ℕ
  spelled digits =
      0xE5 ∷ (digits ++ 0 ∷ 0 ∷ []) ++ iostream.checksum_add_uint8 (digits ++ 0 ∷ 0 ∷ []) ∷ []

  -- The device that gave its name in `buf` has acknowledged the passphrase made of it, and the call
  -- ended in `s'`. The name is eight characters; the passphrase has the digits of the last six, and
  -- was sent as one packet, directly before the answer.
  pub record Acknowledged (buf : List ℕ) (s' : State W) : Type 0 where
    pub eight : length (take 8 buf) ≡ 8
    pub characters : All (λ c. 0 < c) (take 8 buf)
    pub digits : List ℕ
    pub of_name : AreDigits (drop 2 (take 8 buf)) digits
    pub answer : List ℕ
    pub answered : IsAnswered iostream (simple (spelled digits) ack) answer s'
    pub written :
        iostream.write
          (0xCD ∷ 0x40 ∷ answered.sequence % 256 ∷ 10 ∷ spelled digits)
          answered.started
        ≡ (ok tt, answered.before)

  -- The name was asked for in `w`, and the handshake passed, ending in `s'`.
  pub record Passed (w : W) (s' : State W) : Type 0 where
    pub outcome :
        (iostream.get_name 9 w ≡ (err unsupported, s'.env))
        ⊎ ((buf : List ℕ) × ((iostream.get_name 9 w).0 ≡ ok buf) × Acknowledged buf s')

  after_transfer :
      (r : Result (List ℕ) × State W) {u : Unit {0}} {s' : State W}
      → bind (as_io_error r.0, r.1) (λ _. return tt) ≡ (ok u, s')
      → (answer : List ℕ) × (r ≡ (ok answer, s'))
  unfolding as_io_error
  after_transfer (ok a, s) h = (a, ground arith)
  after_transfer (err e, s) h = absurd (cc)

  spelled-passphrase :
      (cs : List ℕ)
      → length cs ≡ 8
      → (passphrase iostream cs ≡ spelled (map digit (drop 2 cs)))
        × (length (spelled (map digit (drop 2 cs))) ≡ 10)
  unfolding passphrase
  spelled-passphrase cs h =
      let (same, six) = last_six cs h in
      let body = map digit (drop 2 cs) ++ 0 ∷ 0 ∷ [] in
      (
        rw same refl,
        omega (
          arith,
          length-append body (iostream.checksum_add_uint8 body ∷ []),
          length-append (map digit (drop 2 cs)) (0 ∷ 0 ∷ []),
          length-map (drop 2 cs) digit,
          six,
        ),
      )

  passphrase-Acknowledged :
      (buf answer : List ℕ) {s' : State W}
      → 8 ≤ length (c_string (take 8 buf))
      → IsAnswered iostream (simple (passphrase iostream (c_string (take 8 buf))) ack) answer s'
      → Acknowledged buf s'
  passphrase-Acknowledged buf answer {s'} long h =
      let eight : length (take 8 buf) ≡ 8 =
        omega (arith, length-c_string (take 8 buf), length-take 8 buf) in
      let (whole, all) = c_string_whole (take 8 buf) (omega (arith, eight)) in
      let digits = map digit (drop 2 (take 8 buf)) in
      let (bytes, ten) = spelled-passphrase (take 8 buf) eight in
      let answered : IsAnswered iostream (simple (spelled digits) ack) answer s' =
        subst (λ b. IsAnswered iostream (simple b ack) answer s')
          (ap (passphrase iostream) whole ∙ bytes) h in
      record {
        eight = eight;
        characters = all;
        digits = digits;
        of_name = map-digit-AreDigits (drop 2 (take 8 buf));
        answer = answer;
        answered = answered;
        written =
            ap
              (λ n.
                iostream.write (0xCD ∷ 0x40 ∷ answered.sequence % 256 ∷ n ∷ spelled digits)
                  answered.started)
              (sym ten)
            ∙ (sym (
                  ble_write_one_packet iostream (answered.sequence % 256) (spelled digits)
                    answered.started (omega (arith, ten)) (omega (arith, ten)))
                ∙ answered.asked);
      }

  send_passphrase-Acknowledged :
      (buf : List ℕ) (s : State W) {u : Unit {0}} {s' : State W}
      → is_ble iostream.transport ≡ true
      → send_passphrase iostream buf s ≡ (ok u, s')
      → Acknowledged buf s'
  unfolding send_passphrase
  send_passphrase-Acknowledged buf s over_ble h =
      let name = c_string (take 8 buf) in
      let command = simple (passphrase iostream name) ack in
      elim (Bool-cases (ltb (length name) 8)) [
        | inl short ↦ absurd (cc (rw short at h))
        | inr long ↦
            let (answer, e) = after_transfer (transfer iostream command s) (rw long at h) in
            passphrase-Acknowledged buf answer (ground arith)
              (transfer_sound iostream command s over_ble e)
      ]

  with_name-Passed :
      (w : W) (r : Result (List ℕ)) (s : State W) {u : Unit {0}} {s' : State W}
      → is_ble iostream.transport ≡ true
      → iostream.get_name 9 w ≡ (r, s.env)
      → with_name iostream r s ≡ (ok u, s')
      → Passed w s'
  unfolding with_name
  with_name-Passed w (ok buf) s over_ble e h = record {
    outcome = inr (buf, ap (λ p. p.0) e, send_passphrase-Acknowledged buf s over_ble h);
  }
  with_name-Passed w (err unsupported) s over_ble e h = record {
    outcome = inl (e ∙ ap (λ p. (err unsupported, p.1.env)) h);
  }
  with_name-Passed w (err _) s over_ble e h = absurd (cc)

  -- A BLE handshake succeeds only if the stream says that it has no name for the device, and then
  -- nothing else is done, or if the device has acknowledged the passphrase: the name has eight
  -- characters before its end; one packet was written with 0xE5, the digits of the last six
  -- characters, two zero bytes and their checksum; and the answer that was read directly after it
  -- is verified and begins with ACK. No refusal is let through.
  pub ble_handshake-Passed :
      (s : State W) {u : Unit {0}} {s' : State W}
      → is_ble iostream.transport ≡ true
      → ble_handshake iostream s ≡ (ok u, s')
      → Passed s.env s'
  unfolding ble_handshake
  ble_handshake-Passed s over_ble h =
      with_name-Passed s.env (iostream.get_name 9 s.env).0 (on_env (iostream.get_name 9) s).1
        over_ble refl h
