-- ===== src/Common/RbStream/Backward/Rounds.antt =====
-- The loop of `dc_rbstream_read_backward`.
use mathlib.Core.Path.{subst}
use libdc_swift.Prelude.{
  ℕ, zero, suc, ◌+◌, ◌-◌, ◌^◌, ◌≤◌, ◌<◌, ◌≡◌, refl, sym, inl, inr, List, [], ◌++◌, ok, err, Error,
  Result, Call, arith, Bool-cases, ltb, ◌==◌, slice, ==→eq, append-nil,
}
use libdc_swift.Common.RbStream.{
  RbStream, chunk, wrap_backward, packet_backward, load_backward, keep_packet, fill_backward,
  backward_rounds, rbstream_read_backward,
}
use libdc_swift.Common.RbStream.Unrolled.{back, behind}
use libdc_swift.Common.RbStream.Standing.{
  aligned_sub, IsPacketed, IsBefore, Serves, Device, Delivers, Filled, bind-Delivers, chunk_lem,
}
use libdc_swift.Common.RbStream.Backward.{
  Wrapped, wrap_backward-IsBefore, packet_bounds, packet_aligned, load_backward-IsBefore, back_step,
  behind_step, hand_out_backward-IsBefore,
}

module _ (mem : ℕ → ℕ) (page lo hi packet : ℕ) (g : IsPacketed page lo hi packet) {W : Type 0}
    (keeps : W → Type 0) (failing : Error → Type 0) (read : ℕ → ℕ → Call W (List ℕ))
    (device : Device keeps failing mem page lo hi packet read) where
  keep_packet-Filled :
      (s : RbStream) (places : ℕ → Type 0) (q : ℕ) (r : Result (List ℕ) × W)
      → s.available ≡ 0
      → lo < s.address
      → IsBefore mem page lo hi packet s q
      → places q
      → Serves keeps failing (slice mem (s.address - packet_backward s) packet) r
      → Filled keeps failing
          (IsBefore mem page lo hi packet)
          places
          (keep_packet read s (load_backward s (packet_backward s)) r)
  unfolding keep_packet
  keep_packet-Filled s places q (ok answer, w) e low h here served =
      let (stands, some_bytes) =
        load_backward-IsBefore mem page lo hi packet g s q answer e low h served.0 in
      (q, here, stands, some_bytes, served.1)
  keep_packet-Filled s places q (err x, w) e low h here served = served

  load-Filled :
      (s : RbStream) (w : W) (places : ℕ → Type 0) (q : ℕ)
      → s.available ≡ 0
      → lo < s.address
      → IsBefore mem page lo hi packet s q
      → places q
      → keeps w
      → Filled keeps failing (IsBefore mem page lo hi packet) places (
          keep_packet read s
            (load_backward s (packet_backward s))
            (read (s.address - packet_backward s) s.packetsize w))
  load-Filled s w places q e low h here k =
      let b = packet_bounds mem page lo hi packet g s q e low h in
      let stands = IsBefore mem page lo hi packet in
      let load = load_backward s (packet_backward s) in
      let a = s.address - packet_backward s in
      subst (λ n. Filled keeps failing stands places (keep_packet read s load (read a n w)))
        (sym h.same_packet)
        (keep_packet-Filled s places q (read a packet w) e low h here (
          device a w k
            (aligned_sub s.address _ page (omega arith) h.aligned
              (packet_aligned mem page lo hi packet g s q h))
            (omega arith) (omega arith)))

  fill_backward-Filled :
      (s : RbStream) (w : W) (p : ℕ)
      → IsBefore mem page lo hi packet s p
      → keeps w
      → Filled keeps failing
          (IsBefore mem page lo hi packet)
          (Wrapped mem page lo hi packet g p)
          (fill_backward read (s, w))
  unfolding fill_backward
  fill_backward-Filled s w p h k = elim (Bool-cases (s.available == 0)) [
    | inr n ↦ rw n (p, inl refl, h, ground arith, k)
    | inl e ↦
        let (q, here, stands, empty, above) =
          wrap_backward-IsBefore mem page lo hi packet g s p (==→eq e) h in
        rw e (
          load-Filled (wrap_backward s) w (Wrapped mem page lo hi packet g p) q empty above stands
            here k)
  ]

  finished :
      (s : RbStream) (w : W) (p size nbytes : ℕ) (out : List ℕ)
      → size ≤ nbytes
      → IsBefore mem page lo hi packet s p
      → keeps w
      → Delivers keeps failing
          (IsBefore mem page lo hi packet)
          (behind mem lo hi p (size - nbytes) ++ out)
          (back mem lo hi p (size - nbytes))
          (ok out, (s, w))
  unfolding behind back
  finished s w p size nbytes out le h k =
      let none_left : size - nbytes ≡ 0 = omega arith in rw none_left (refl, h, k)

  backward_rounds-Delivers :
      (fuel size nbytes : ℕ) (out : List ℕ) (s : RbStream) (w : W) (p : ℕ)
      → size ≤ nbytes + fuel
      → size ≤ 2 ^ 31
      → IsBefore mem page lo hi packet s p
      → keeps w
      → Delivers keeps failing
          (IsBefore mem page lo hi packet)
          (behind mem lo hi p (size - nbytes) ++ out)
          (back mem lo hi p (size - nbytes))
          (backward_rounds read fuel size nbytes out (s, w))
  unfolding backward_rounds
  backward_rounds-Delivers zero size nbytes out s w p fuelled small h k =
      finished s w p size nbytes out (omega arith) h k
  backward_rounds-Delivers (suc fuel) size nbytes out s w p fuelled small h k =
      elim (Bool-cases (ltb nbytes size)) [
        | inr end ↦ rw end (finished s w p size nbytes out (ground arith) h k)
        | inl more ↦ rw more (
            bind-Delivers keeps failing (IsBefore mem page lo hi packet)
              (Wrapped mem page lo hi packet g p) _ _ (fill_backward read (s, w)) _
              (fill_backward-Filled s w p h k)
              (λ t v q here at pos kept.
                let len = chunk t size nbytes in
                let c =
                  chunk_lem t size nbytes pos (omega (arith, at.high, g.small)) (ground arith)
                    small in
                let (q', there, low, at', bytes) =
                  hand_out_backward-IsBefore mem page lo hi packet g t q len c.1 pos at in
                let n = size - nbytes in
                let rest = size - (nbytes + len) in
                let split : n ≡ len + rest = omega (arith, c.2) in
                let back_eq =
                  back_step mem page lo hi packet g p q q' len n rest here there c.0 low split in
                let behind_eq =
                  behind_step mem page lo hi packet g p q q' len n rest _ out here there low split
                    bytes in
                rw (back_eq, behind_eq)
                  (backward_rounds-Delivers fuel size (nbytes + len) _ _ v q' (omega (arith, c.0))
                    small at' kept)))
      ]

  -- what the whole loop returns
  pub rbstream_read_backward-Delivers :
      (size : ℕ) (s : RbStream) (w : W) (p : ℕ)
      → size ≤ 2 ^ 31
      → IsBefore mem page lo hi packet s p
      → keeps w
      → Delivers keeps failing
          (IsBefore mem page lo hi packet)
          (behind mem lo hi p size)
          (back mem lo hi p size)
          (rbstream_read_backward read size (s, w))
  unfolding rbstream_read_backward
  rbstream_read_backward-Delivers size s w p small h k =
      let all : size - 0 ≡ size = omega arith in
      rw (← append-nil (behind mem lo hi p size))
        (rw all at (backward_rounds-Delivers size size 0 [] s w p (omega arith) small h k))
