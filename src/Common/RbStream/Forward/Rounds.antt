-- ===== src/Common/RbStream/Forward/Rounds.antt =====
-- The loop of `dc_rbstream_read_forward`.
use mathlib.Core.Path.{subst}
use libdc_swift.Prelude.{
  ℕ, zero, suc, ◌+◌, ◌-◌, ◌^◌, ◌≤◌, ◌<◌, ◌≡◌, refl, sym, inl, inr, List, [], ◌++◌, ok, err, Error,
  Result, Call, arith, Bool-cases, ltb, ◌==◌, slice, ==→eq, append-nil,
}
use libdc_swift.Common.RbStream.{
  RbStream, chunk, wrap_forward, packet_forward, load_forward, keep_packet, fill_forward,
  forward_rounds, rbstream_read_forward,
}
use libdc_swift.Common.RbStream.Unrolled.{on, ahead}
use libdc_swift.Common.RbStream.Standing.{
  aligned_sub, IsPacketed, IsAt, Serves, Device, Delivers, Filled, bind-Delivers, chunk_lem,
}
use libdc_swift.Common.RbStream.Forward.{
  Wrapped, wrap_forward-IsAt, packet_bounds, packet_aligned, load_forward-IsAt, on_step, ahead_step,
  hand_out_forward-IsAt,
}

module _ (mem : ℕ → ℕ) (page lo hi packet : ℕ) (g : IsPacketed page lo hi packet) {W : Type 0}
    (keeps : W → Type 0) (failing : Error → Type 0) (read : ℕ → ℕ → Call W (List ℕ))
    (device : Device keeps failing mem page lo hi packet read) where
  keep_packet-Filled :
      (s : RbStream) (places : ℕ → Type 0) (q : ℕ) (r : Result (List ℕ) × W)
      → s.available ≡ 0
      → s.address < hi
      → IsAt mem page lo hi packet s q
      → places q
      → Serves keeps failing (slice mem (s.address - (packet - packet_forward s)) packet) r
      → Filled keeps failing
          (IsAt mem page lo hi packet)
          places
          (keep_packet read s (load_forward s (packet_forward s)) r)
  unfolding keep_packet
  keep_packet-Filled s places q (ok answer, w) e low h here served =
      let (stands, some_bytes) =
        load_forward-IsAt mem page lo hi packet g s q answer e low h served.0 in
      (q, here, stands, some_bytes, served.1)
  keep_packet-Filled s places q (err x, w) e low h here served = served

  load-Filled :
      (s : RbStream) (w : W) (places : ℕ → Type 0) (q : ℕ)
      → s.available ≡ 0
      → s.address < hi
      → IsAt mem page lo hi packet s q
      → places q
      → keeps w
      → Filled keeps failing (IsAt mem page lo hi packet) places (
          keep_packet read s
            (load_forward s (packet_forward s))
            (read (s.address - (s.packetsize - packet_forward s)) s.packetsize w))
  load-Filled s w places q e low h here k =
      let b = packet_bounds mem page lo hi packet g s q e low h in
      let stands = IsAt mem page lo hi packet in
      let load = load_forward s (packet_forward s) in
      let len = packet_forward s in
      subst
        (λ n.
          Filled keeps failing stands places
            (keep_packet read s load (read (s.address - (n - len)) n w)))
        (sym h.same_packet)
        (keep_packet-Filled s places q (read (s.address - (packet - len)) packet w) e low h here (
          device (s.address - (packet - len)) w k
            (aligned_sub s.address _ page (omega arith) h.aligned (
              aligned_sub packet len page (omega arith) g.packet_aligned
                (packet_aligned mem page lo hi packet g s q h)))
            (omega arith) (omega arith)))

  fill_forward-Filled :
      (s : RbStream) (w : W) (p : ℕ)
      → IsAt mem page lo hi packet s p
      → keeps w
      → Filled keeps failing
          (IsAt mem page lo hi packet)
          (Wrapped mem page lo hi packet g p)
          (fill_forward read (s, w))
  unfolding fill_forward
  fill_forward-Filled s w p h k = elim (Bool-cases (s.available == 0)) [
    | inr n ↦ rw n (p, inl refl, h, ground arith, k)
    | inl e ↦
        let (q, here, stands, empty, above) =
          wrap_forward-IsAt mem page lo hi packet g s p (==→eq e) h in
        rw e (
          load-Filled (wrap_forward s) w (Wrapped mem page lo hi packet g p) q empty above stands
            here k)
  ]

  finished :
      (s : RbStream) (w : W) (p size nbytes : ℕ) (out : List ℕ)
      → size ≤ nbytes
      → IsAt mem page lo hi packet s p
      → keeps w
      → Delivers keeps failing
          (IsAt mem page lo hi packet)
          (out ++ ahead mem lo hi p (size - nbytes))
          (on mem lo hi p (size - nbytes))
          (ok out, (s, w))
  unfolding ahead on
  finished s w p size nbytes out le h k =
      let none_left : size - nbytes ≡ 0 = omega arith in rw (none_left, append-nil out) (refl, h, k)

  forward_rounds-Delivers :
      (fuel size nbytes : ℕ) (out : List ℕ) (s : RbStream) (w : W) (p : ℕ)
      → size ≤ nbytes + fuel
      → size ≤ 2 ^ 31
      → IsAt mem page lo hi packet s p
      → keeps w
      → Delivers keeps failing
          (IsAt mem page lo hi packet)
          (out ++ ahead mem lo hi p (size - nbytes))
          (on mem lo hi p (size - nbytes))
          (forward_rounds read fuel size nbytes out (s, w))
  unfolding forward_rounds
  forward_rounds-Delivers zero size nbytes out s w p fuelled small h k =
      finished s w p size nbytes out (omega arith) h k
  forward_rounds-Delivers (suc fuel) size nbytes out s w p fuelled small h k =
      elim (Bool-cases (ltb nbytes size)) [
        | inr end ↦ rw end (finished s w p size nbytes out (ground arith) h k)
        | inl more ↦ rw more (
            bind-Delivers keeps failing (IsAt mem page lo hi packet)
              (Wrapped mem page lo hi packet g p) _ _ (fill_forward read (s, w)) _
              (fill_forward-Filled s w p h k)
              (λ t v q here at pos kept.
                let len = chunk t size nbytes in
                let c =
                  chunk_lem t size nbytes pos (omega (arith, at.low, at.high, g.small))
                    (ground arith) small in
                let (inside, at', bytes) =
                  hand_out_forward-IsAt mem page lo hi packet g t q len c.1 pos at in
                let n = size - nbytes in
                let rest = size - (nbytes + len) in
                let split : n ≡ len + rest = omega (arith, c.2) in
                let on_eq = on_step mem page lo hi packet g p q len n rest here c.0 inside split in
                let ahead_eq =
                  ahead_step mem page lo hi packet g p q len n rest _ out here inside split bytes in
                rw (on_eq, ahead_eq)
                  (forward_rounds-Delivers fuel size (nbytes + len) _ _ v (q + len)
                    (omega (arith, c.0)) small at' kept)))
      ]

  -- what the whole loop returns
  pub rbstream_read_forward-Delivers :
      (size : ℕ) (s : RbStream) (w : W) (p : ℕ)
      → size ≤ 2 ^ 31
      → IsAt mem page lo hi packet s p
      → keeps w
      → Delivers keeps failing
          (IsAt mem page lo hi packet)
          (ahead mem lo hi p size)
          (on mem lo hi p size)
          (rbstream_read_forward read size (s, w))
  unfolding rbstream_read_forward
  rbstream_read_forward-Delivers size s w p small h k =
      let all : size - 0 ≡ size = omega arith in
      (rw all at (forward_rounds-Delivers size size 0 [] s w p (omega arith) small h k))
