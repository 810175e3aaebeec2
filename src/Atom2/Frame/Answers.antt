-- ===== src/Atom2/Frame/Answers.antt =====
-- What `oceanic_atom2_ble_read` accepts: the answers of the packet format that the comment above
-- `oceanic_atom2_ble_write` describes.
use libdc_swift.Prelude.{
  ℕ, zero, suc, ◌+◌, ◌/◌, ◌%◌, ◌≤◌, ◌≡◌, refl, sym, ap, ◌∙◌, ◌≢◌, inl, inr, true, false, List, [],
  ◌++◌, ◌==◌, length, get_or, take, drop, Result-cases, ok, err, Error, protocol, arith,
  append_assoc, append-nil, length-append, length-take, length-drop, Bool-cases, eq→==, ne→==,
  ==→eq, ==→ne,
}
use libdc_swift.Libdc.{Stream}
use libdc_swift.Atom2.Types.{u8}
use libdc_swift.Atom2.Frame.{is_packet, store, finish, read_loop, ble_read}

-- The bytes that a packet carries.
abbrev pub payload_of : List ℕ → List ℕ
payload_of buf = take (get_or buf 3 0) (drop 4 buf)

abbrev pub more_bit : List ℕ → ℕ
more_bit buf = get_or buf 1 0 / 32 % 2

module _ {W : Type 0} (iostream : Stream W) (cmd_seq : ℕ) where
  -- `Answers k w p w'`: from `w` on the stream delivers valid packets numbered from `k`, the last
  -- of them marked as last, which together carry `p`; then it is at `w'`.
  pub data Answers : ℕ → W → List ℕ → W → Type 0 where
    last :
        {k : ℕ} {w w' : W} {p : List ℕ} (buf : List ℕ)
        → iostream.read 20 w ≡ (ok buf, w')
        → is_packet cmd_seq k buf ≡ true
        → more_bit buf ≡ 0
        → p ≡ payload_of buf
        → Answers k w p w'
    more :
        {k : ℕ} {w w' : W} {p : List ℕ} (buf : List ℕ) (w1 : W) (rest : List ℕ)
        → iostream.read 20 w ≡ (ok buf, w1)
        → is_packet cmd_seq k buf ≡ true
        → more_bit buf ≢ 0
        → Answers (u8 (k + 1)) w1 rest w'
        → p ≡ payload_of buf ++ rest
        → Answers k w p w'

  -- How many packets the answer takes.
  abbrev pub packets : {k : ℕ} {w w' : W} {p : List ℕ} → Answers k w p w' → ℕ
  packets (last buf r a b e) = 1
  packets (more buf w1 rest r a b t e) = suc (packets t)

pub length-payload :
    (cmd_seq k : ℕ) (buf : List ℕ)
    → is_packet cmd_seq k buf ≡ true
    → length (payload_of buf) ≡ get_or buf 3 0
unfolding is_packet
length-payload cmd_seq k buf h =
    ground (arith, length-take (get_or buf 3 0) (drop 4 buf), length-drop 4 buf)

pub store_fits :
    (size nbytes len : ℕ) (payload out : List ℕ)
    → nbytes + len ≤ size
    → store size nbytes len payload out ≡ out ++ take len payload
unfolding store
store_fits size nbytes zero payload out h = ground (arith, append-nil out)
store_fits size nbytes (suc len) payload out h = ground arith

module _ {W : Type 0} (iostream : Stream W) (cmd_seq : ℕ) where
  pub read_loop_err :
      (fuel size nbytes k : ℕ) (out : List ℕ) {w w1 : W} {e : Error}
      → iostream.read 20 w ≡ (err e, w1)
      → read_loop iostream cmd_seq (suc fuel) size nbytes k out w ≡ (err e, w1)
  unfolding read_loop
  read_loop_err fuel size nbytes k out h = rw h

  pub read_loop_bad :
      (fuel size nbytes k : ℕ) (out : List ℕ) {w w1 : W} (buf : List ℕ)
      → iostream.read 20 w ≡ (ok buf, w1)
      → is_packet cmd_seq k buf ≡ false
      → read_loop iostream cmd_seq (suc fuel) size nbytes k out w ≡ (err protocol, w1)
  unfolding read_loop
  read_loop_bad fuel size nbytes k out buf h a = rw (h, a)

  pub read_loop_last :
      (fuel size nbytes k : ℕ) (out : List ℕ) {w w1 : W} (buf : List ℕ)
      → iostream.read 20 w ≡ (ok buf, w1)
      → is_packet cmd_seq k buf ≡ true
      → more_bit buf ≡ 0
      → read_loop iostream cmd_seq (suc fuel) size nbytes k out w
        ≡ finish size
            (nbytes + get_or buf 3 0)
            (store size nbytes (get_or buf 3 0) (drop 4 buf) out)
            w1
  unfolding read_loop
  read_loop_last fuel size nbytes k out buf h a m = rw (h, a, eq→== m)

  pub read_loop_more :
      (fuel size nbytes k : ℕ) (out : List ℕ) {w w1 : W} (buf : List ℕ)
      → iostream.read 20 w ≡ (ok buf, w1)
      → is_packet cmd_seq k buf ≡ true
      → more_bit buf ≢ 0
      → read_loop iostream cmd_seq (suc fuel) size nbytes k out w
        ≡ read_loop iostream cmd_seq fuel size
            (nbytes + get_or buf 3 0)
            (u8 (k + 1))
            (store size nbytes (get_or buf 3 0) (drop 4 buf) out)
            w1
  unfolding read_loop
  read_loop_more fuel size nbytes k out buf h a m = rw (h, a, ne→== m)

  -- What a successful loop has read.
  abbrev Read : ℕ → ℕ → ℕ → List ℕ → W → ℕ → List ℕ → W → Type 0
  Read size nbytes k out w n out' w' =
      (p : List ℕ) × Answers iostream cmd_seq k w p w'
      × (n ≡ nbytes + length p)
      × (out' ≡ out ++ p)
      × (n ≤ size)

  finish-ok :
      {w w' : W} {out out' : List ℕ} (size n : ℕ) {n' : ℕ}
      → finish size n out w ≡ (ok (n', out'), w')
      → (n ≤ size) × (n' ≡ n) × (out' ≡ out) × (w' ≡ w)
  unfolding finish
  finish-ok size n h = ground arith

  read_loop_sound_last :
      (fuel size nbytes k : ℕ) (out : List ℕ) (w w1 : W) {n : ℕ} {out' : List ℕ} {w' : W}
      (buf : List ℕ)
      → iostream.read 20 w ≡ (ok buf, w1)
      → is_packet cmd_seq k buf ≡ true
      → more_bit buf ≡ 0
      → read_loop iostream cmd_seq (suc fuel) size nbytes k out w ≡ (ok (n, out'), w')
      → Read size nbytes k out w n out' w'
  read_loop_sound_last fuel size nbytes k out w w1 buf r good m h =
      let len = get_or buf 3 0 in
      let f =
        finish-ok size (nbytes + len)
          (sym (read_loop_last fuel size nbytes k out buf r good m) ∙ h) in
      (
        payload_of buf,
        last buf (r ∙ ap (λ v. (ok buf, v)) (sym f.3)) good m refl,
        omega (arith, length-payload cmd_seq k buf good),
        f.2 ∙ store_fits size nbytes len (drop 4 buf) out f.0,
        omega arith,
      )

  read_loop_sound_more :
      (fuel size nbytes k : ℕ) (out : List ℕ) (w w1 : W) {n : ℕ} {out' : List ℕ} {w' : W}
      (buf : List ℕ)
      → iostream.read 20 w ≡ (ok buf, w1)
      → is_packet cmd_seq k buf ≡ true
      → more_bit buf ≢ 0
      → Read size
          (nbytes + get_or buf 3 0)
          (u8 (k + 1))
          (store size nbytes (get_or buf 3 0) (drop 4 buf) out)
          w1
          n
          out'
          w'
      → Read size nbytes k out w n out' w'
  read_loop_sound_more fuel size nbytes k out w w1 buf r good m (rest, t, en, eo, le) =
      let len = get_or buf 3 0 in
      (
        payload_of buf ++ rest,
        more buf w1 rest r good m t refl,
        omega (arith, length-payload cmd_seq k buf good, length-append (payload_of buf) rest),
        eo
            ∙ (ap (λ o. o ++ rest) (store_fits size nbytes len (drop 4 buf) out (omega arith))
                ∙ append_assoc out (payload_of buf) rest),
        le,
      )

  read_loop_sound :
      (fuel size nbytes k : ℕ) (out : List ℕ) (w : W) {n : ℕ} {out' : List ℕ} {w' : W}
      → read_loop iostream cmd_seq fuel size nbytes k out w ≡ (ok (n, out'), w')
      → Read size nbytes k out w n out' w'
  unfolding read_loop
  read_loop_sound zero size nbytes k out w h = absurd (cc)
  read_loop_sound (suc fuel) size nbytes k out w h =
      let w1 = (iostream.read 20 w).1 in
      elim (Result-cases (iostream.read 20 w).0) [
        | inr (e, q) ↦ absurd (cc (read_loop_err fuel size nbytes k out {w = w} (λ i. (q i, w1))))
        | inl (buf, q) ↦
            let r : iostream.read 20 w ≡ (ok buf, w1) = λ i. (q i, w1) in
            elim (Bool-cases (is_packet cmd_seq k buf)) [
              | inr bad ↦ absurd (cc (read_loop_bad fuel size nbytes k out buf r bad))
              | inl good ↦ elim (Bool-cases (more_bit buf == 0)) [
                | inl m ↦ read_loop_sound_last fuel size nbytes k out w w1 buf r good (==→eq m) h
                | inr m ↦ read_loop_sound_more fuel size nbytes k out w w1 buf r good (==→ne m) (
                    read_loop_sound fuel size (nbytes + get_or buf 3 0) (u8 (k + 1))
                      (store size nbytes (get_or buf 3 0) (drop 4 buf) out) w1
                      (sym (read_loop_more fuel size nbytes k out buf r good (==→ne m)) ∙ h))
              ]
            ]
      ]

  -- What `oceanic_atom2_ble_read` returns successfully is what one valid answer of the dive
  -- computer carries, whole and in order, and it fits the buffer.
  pub ble_read_sound :
      (size : ℕ) {w w' : W} {n : ℕ} {out : List ℕ}
      → ble_read iostream cmd_seq size w ≡ (ok (n, out), w')
      → Answers iostream cmd_seq 0 w out w' × (n ≡ length out) × (n ≤ size)
  unfolding ble_read
  ble_read_sound size {w} h =
      let (p, t, en, eo, le) = read_loop_sound iostream.fuel size 0 0 [] w h in
      rw eo (t, omega arith, le)
