-- ===== src/Atom2/Frame/Complete.antt =====
-- `oceanic_atom2_ble_read` on the answers of the packet format that Answers describes.
use native.Mathlib.Nat.{add_assoc, zero-add}
use libdc_swift.Prelude.{
  ℕ, zero, suc, ◌+◌, ◌≤◌, ◌<◌, ◌≡◌, ap, ◌∙◌, List, [], ◌++◌, length, get_or, drop, ok, err,
  protocol, arith, append_assoc, length-append, lt→ltb, le→ltb, ltb, ltb→lt, Bool-cases, inl, inr,
  if◌then◌else◌,
}
use libdc_swift.Libdc.{Stream}
use libdc_swift.Atom2.Frame.{store, finish, read_loop, ble_read}
use libdc_swift.Atom2.Frame.Answers.{
  Answers, last, more, packets, payload_of, length-payload, store_fits, read_loop_last,
  read_loop_more,
}

finish_fits :
    {W : Type 0} (size n : ℕ) (out : List ℕ) (w : W)
    → n ≤ size
    → finish size n out w ≡ (ok (n, out), w)
unfolding finish
finish_fits size n out w h = rw (le→ltb h)

finish_overflows :
    {W : Type 0} (size n : ℕ) (out : List ℕ) (w : W)
    → size < n
    → finish size n out w ≡ (err protocol, w)
unfolding finish
finish_overflows size n out w h = rw (lt→ltb size n h)

module _ {W : Type 0} (iostream : Stream W) (cmd_seq : ℕ) where
  read_loop_complete :
      (fuel size nbytes : ℕ) (out : List ℕ) {k : ℕ} {w w' : W} {p : List ℕ}
      (t : Answers iostream cmd_seq k w p w')
      → packets iostream cmd_seq t ≤ fuel
      → nbytes + length p ≤ size
      → read_loop iostream cmd_seq fuel size nbytes k out w ≡ (ok (nbytes + length p, out ++ p), w')
  read_loop_complete zero size nbytes out (last buf r good m e) f le = absurd (omega arith)
  read_loop_complete zero size nbytes out (more buf w1 rest r good m t e) f le =
      absurd (omega arith)
  read_loop_complete (suc fuel) size nbytes out {k} {w' = w'} (last buf r good m e) f le =
      let len-eq = length-payload cmd_seq k buf good in
      let fits : nbytes + get_or buf 3 0 ≤ size = omega (arith, len-eq, ap length e) in
      rw (e, len-eq)
        (read_loop_last iostream cmd_seq fuel size nbytes k out buf r good m
          ∙ rw (store_fits size nbytes (get_or buf 3 0) (drop 4 buf) out fits)
              (finish_fits size _ (out ++ payload_of buf) w' fits))
  read_loop_complete (suc fuel) size nbytes out {k} (more buf w1 rest r good m t e) f le =
      let len-eq = length-payload cmd_seq k buf good in
      let total = length-append {0} (payload_of buf) rest in
      let fits : nbytes + get_or buf 3 0 + length rest ≤ size =
        omega (arith, len-eq, total, ap length e) in
      rw (e, total, len-eq)
        (read_loop_more iostream cmd_seq fuel size nbytes k out buf r good m
          ∙ (read_loop_complete fuel size (nbytes + get_or buf 3 0)
                (store size nbytes (get_or buf 3 0) (drop 4 buf) out) t (omega arith) fits
              ∙ rw (
                store_fits size nbytes (get_or buf 3 0) (drop 4 buf) out (omega arith),
                append_assoc out (payload_of buf) rest,
                add_assoc nbytes (get_or buf 3 0) (length rest),
              )))

  read_loop_overflow :
      (fuel size nbytes : ℕ) (out : List ℕ) {k : ℕ} {w w' : W} {p : List ℕ}
      (t : Answers iostream cmd_seq k w p w')
      → packets iostream cmd_seq t ≤ fuel
      → size < nbytes + length p
      → read_loop iostream cmd_seq fuel size nbytes k out w ≡ (err protocol, w')
  read_loop_overflow zero size nbytes out (last buf r good m e) f lt = absurd (omega arith)
  read_loop_overflow zero size nbytes out (more buf w1 rest r good m t e) f lt =
      absurd (omega arith)
  read_loop_overflow (suc fuel) size nbytes out {k} {w' = w'} (last buf r good m e) f lt =
      read_loop_last iostream cmd_seq fuel size nbytes k out buf r good m
      ∙ finish_overflows size _ _ w' (omega (arith, length-payload cmd_seq k buf good, ap length e))
  read_loop_overflow (suc fuel) size nbytes out {k} (more buf w1 rest r good m t e) f lt =
      let total = length-append {0} (payload_of buf) rest in
      read_loop_more iostream cmd_seq fuel size nbytes k out buf r good m
      ∙ read_loop_overflow fuel size (nbytes + get_or buf 3 0)
          (store size nbytes (get_or buf 3 0) (drop 4 buf) out) t (omega arith)
          (omega (arith, length-payload cmd_seq k buf good, total, ap length e))

  -- Every valid answer of the dive computer, if the fuel covers its packets, is read to its end: one
  -- that fits the buffer is returned whole with its length, and a longer one is a protocol error.
  pub ble_read_complete :
      (size : ℕ) {w w' : W} {p : List ℕ} (t : Answers iostream cmd_seq 0 w p w')
      → packets iostream cmd_seq t ≤ iostream.fuel
      → ble_read iostream cmd_seq size w
        ≡ (if ltb size (length p) then err protocol else ok (length p, p), w')
  unfolding ble_read
  ble_read_complete size {p} t f = elim (Bool-cases (ltb size (length p))) [
    | inl long ↦ rw long (
        read_loop_overflow iostream.fuel size 0 [] t f (omega (arith, ltb→lt size (length p) long)))
    | inr short ↦
        rw short
          (read_loop_complete iostream.fuel size 0 [] t f (ground arith) ∙ rw (zero-add (length p)))
  ]
