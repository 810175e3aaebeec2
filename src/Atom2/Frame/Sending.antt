-- ===== src/Atom2/Frame/Sending.antt =====
-- What `oceanic_atom2_ble_write` puts on the wire.
use libdc_swift.Prelude.{
  ℕ, zero, suc, ◌+◌, ◌-◌, ◌%◌, ◌≤◌, ◌<◌, ◌≡◌, refl, ap, ◌∙◌, List, [], ◌∷◌, ◌++◌, length, take, ok,
  bind, ◌>>◌, Call, arith, length-append, lt→ltb, le→ltb, bind-end, bind_ext, take_all,
  take-append_of_le,
}
use libdc_swift.Libdc.{Stream}
use libdc_swift.Atom2.Types.{u8}
use libdc_swift.Atom2.Frame.{write_loop, ble_write}

module _ {W : Type 0} (iostream : Stream W) (cmd_seq : ℕ) where
  write_loop_end :
      (fuel : ℕ) (payload : List ℕ) (nbytes k : ℕ) (w : W)
      → length payload ≤ nbytes
      → write_loop iostream cmd_seq fuel payload nbytes k w ≡ (ok tt, w)
  unfolding write_loop
  write_loop_end zero payload nbytes k w h = refl
  write_loop_end (suc fuel) payload nbytes k w h = rw (le→ltb h)

  -- A packet that others follow.
  write_loop_more :
      (fuel : ℕ) (payload : List ℕ) (nbytes k : ℕ) (w : W)
      → nbytes + 16 < length payload
      → write_loop iostream cmd_seq (suc fuel) payload nbytes k w
        ≡ bind
            (iostream.write (0xcd ∷ (0x60 + k % 32) ∷ cmd_seq ∷ 16 ∷ take 16 payload) w)
            (λ _. write_loop iostream cmd_seq fuel payload (nbytes + 16) (u8 (k + 1)))
  unfolding write_loop
  write_loop_more fuel payload nbytes k w h = rw (
    lt→ltb nbytes (length payload) (omega arith),
    lt→ltb 16 (length payload - nbytes) (omega arith),
  )

  -- The last packet.
  write_loop_last :
      (fuel : ℕ) (payload : List ℕ) (nbytes k n : ℕ) (w : W)
      → nbytes + n ≡ length payload
      → 0 < n
      → n ≤ 16
      → write_loop iostream cmd_seq (suc fuel) payload nbytes k w
        ≡ iostream.write (0xcd ∷ (0x40 + k % 32) ∷ cmd_seq ∷ n ∷ take n payload) w
  unfolding write_loop
  write_loop_last fuel payload nbytes k n w h p le =
      let left : length payload - nbytes ≡ n = omega arith in
      rw (lt→ltb nbytes (length payload) (omega arith), left, le→ltb {a = 16} {b = n} le)
        (bind-end _ _ (λ s. write_loop_end fuel payload (nbytes + n) (u8 (k + 1)) s (omega arith)))

  -- A command of at most 16 bytes goes out as one packet: the start byte, the status of a last
  -- packet, the sequence number of the command, its length and its bytes.
  pub ble_write_one_packet :
      (command : List ℕ) (w : W)
      → 0 < length command
      → length command ≤ 16
      → ble_write iostream cmd_seq command w
        ≡ iostream.write (0xcd ∷ 0x40 ∷ cmd_seq ∷ length command ∷ command) w
  unfolding ble_write
  ble_write_one_packet [] w p le = absurd (omega arith)
  ble_write_one_packet (c ∷ cs) w p le =
      write_loop_last (length cs) (c ∷ cs) 0 0 (length (c ∷ cs)) w (omega arith) p le
      ∙ rw (take_all (c ∷ cs))

  -- A longer command goes out with the wrong bytes: `memcpy (buf + 4, data, length)` takes each
  -- packet from the start of the command. After a first packet with bytes 0 to 15 the second one
  -- repeats the first bytes, and what stands behind byte 15 is never sent.
  pub ble_write_repeats :
      (page tail : List ℕ) (w : W)
      → length page ≡ 16
      → 0 < length tail
      → length tail ≤ 16
      → ble_write iostream cmd_seq (page ++ tail) w
        ≡ (iostream.write (0xcd ∷ 0x60 ∷ cmd_seq ∷ 16 ∷ page)
              >> iostream.write (0xcd ∷ 0x41 ∷ cmd_seq ∷ length tail ∷ take (length tail) page))
            w
  unfolding ble_write
  ble_write_repeats page tail w e p le =
      let total = length-append {0} page tail in
      let fuel : length (page ++ tail) ≡ suc (suc (14 + length tail)) = omega (arith, total) in
      let first : take 16 (page ++ tail) ≡ page =
        take-append_of_le 16 page tail (omega arith) ∙ rw (← e) (take_all page) in
      let second : take (length tail) (page ++ tail) ≡ take (length tail) page =
        take-append_of_le (length tail) page tail (omega arith) in
      ap (λ f. write_loop iostream cmd_seq f (page ++ tail) 0 0 w) fuel
      ∙ (write_loop_more (suc (14 + length tail)) (page ++ tail) 0 0 w (omega (arith, total))
          ∙ (ap (λ b. bind (iostream.write (0xcd ∷ 0x60 ∷ cmd_seq ∷ 16 ∷ b) w) rest) first
              ∙ bind_ext _ _ _ (λ u s.
                write_loop_last (14 + length tail) (page ++ tail) 16 1 (length tail) s
                  (omega (arith, total)) p le
                ∙ ap (λ b. iostream.write (0xcd ∷ 0x41 ∷ cmd_seq ∷ length tail ∷ b) s) second)))
    where
      rest : Unit {0} → Call W (Unit {0})
      rest u = write_loop iostream cmd_seq (suc (14 + length tail)) (page ++ tail) 16 1
