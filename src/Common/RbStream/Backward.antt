-- ===== src/Common/RbStream/Backward.antt =====
-- One round of `dc_rbstream_read_backward`: the stream and the way back through the ring.
pub mod Rounds
use mathlib.Core.Path.{subst}
use native.Mathlib.Nat.{add-zero, suc-add}
use libdc_swift.Prelude.{
  ℕ, zero, suc, ◌+◌, ◌-◌, ◌^◌, ◌%◌, ◌≤◌, ◌<◌, ◌≡◌, refl, sym, ap, ◌∙◌, ◌⊎◌, inl, inr, List, [],
  ◌++◌, take, drop, length, ok, err, Error, Result, Call, bind, arith, Bool-cases, ltb, ◌==◌, slice,
  part-slice, length-slice, take-append_slice, ==→eq, append_assoc, append-nil,
}
use libdc_swift.Atom2.Types.{u32}
use libdc_swift.Common.RbStream.{
  RbStream, chunk, wrap_backward, packet_backward, load_backward, hand_out_backward, keep_packet,
  fill_backward, backward_rounds, rbstream_read_backward,
}
use libdc_swift.Common.RbStream.Unrolled.{
  back, behind, back_inside, behind_inside, back_border, behind_border,
}
use libdc_swift.Common.RbStream.Standing.{
  aligned_sub, IsPacketed, IsBefore, Serves, Device, Delivers, Filled, bind-Delivers, chunk_lem,
}

module _ (mem : ℕ → ℕ) (page lo hi packet : ℕ) (g : IsPacketed page lo hi packet) where
  -- The same place, where the bottom of the ring may have become its top.
  abbrev pub Wrapped : ℕ → ℕ → Type 0
  Wrapped p q = (q ≡ p) ⊎ ((p ≡ lo) × (q ≡ hi))

  -- A stream with an empty cache after the wrap point was handled.
  pub wrap_backward-IsBefore :
      (s : RbStream) (p : ℕ)
      → s.available ≡ 0
      → IsBefore mem page lo hi packet s p
      → let s' = wrap_backward s in
        (q : ℕ) × Wrapped p q
        × IsBefore mem page lo hi packet s' q
        × (s'.available ≡ 0)
        × (lo < s'.address)
  unfolding wrap_backward
  wrap_backward-IsBefore s p e h = elim (Bool-cases (s.address == s.begin)) [
    | inl b ↦ rw b (
      hi,
      inr (ground (arith, h.skipped, h.same_begin), refl),
      record {
        direction = h.direction;
        same_begin = h.same_begin;
        same_end = h.same_end;
        same_packet = h.same_packet;
        place = ground (arith, h.skipped, h.same_begin, h.same_end);
        low = omega (arith, h.same_end, g.fits);
        high = omega (arith, h.same_end);
        skipped = ground (arith, h.skipped, h.same_begin);
        cached = rw e refl;
        aligned = ap (λ x. x % page) h.same_end ∙ g.end_aligned;
      },
      e,
      omega (arith, h.same_end, g.fits, g.not_empty),
    )
    | inr n ↦ rw n (p, inl refl, h, e, ground (arith, h.low, h.same_begin))
  ]

  pub packet_bounds :
      (s : RbStream) (p : ℕ)
      → s.available ≡ 0
      → lo < s.address
      → IsBefore mem page lo hi packet s p
      → let len = packet_backward s in
        (s.skip < len) × (len ≤ packet) × (lo + len ≤ s.address) × (s.address + packet ≤ hi + len)
  unfolding packet_backward
  packet_bounds s p e low h =
      ground (arith, g.not_empty, g.fits, g.small, h.same_begin, h.same_packet, h.skipped, h.high)

  pub packet_aligned :
      (s : RbStream) (p : ℕ) → IsBefore mem page lo hi packet s p → packet_backward s % page ≡ 0
  unfolding packet_backward
  packet_aligned s p h = elim (Bool-cases (ltb s.address (u32 (s.begin + s.packetsize)))) [
    | inl t ↦ rw t (
        ap (λ x. (s.address - x) % page) h.same_begin
        ∙ aligned_sub s.address lo page h.low h.aligned g.begin_aligned)
    | inr f ↦ rw f (ap (λ x. x % page) h.same_packet ∙ g.packet_aligned)
  ]

  -- The packet in the cache.
  pub load_backward-IsBefore :
      (s : RbStream) (p : ℕ) (answer : List ℕ)
      → s.available ≡ 0
      → lo < s.address
      → IsBefore mem page lo hi packet s p
      → answer ≡ slice mem (s.address - packet_backward s) packet
      → IsBefore mem page lo hi packet (load_backward s (packet_backward s) answer) p
        × (0 < (load_backward s (packet_backward s) answer).available)
  unfolding load_backward
  load_backward-IsBefore s p answer e low h served =
      let len = packet_backward s in
      let b = packet_bounds s p e low h in
      let start = take-append_slice mem answer (drop (length answer) s.cache) _ packet served in
      (
        record {
          direction = h.direction;
          same_begin = h.same_begin;
          same_end = h.same_end;
          same_packet = h.same_packet;
          place = omega arith;
          low = omega arith;
          high = omega arith;
          skipped = inl refl;
          cached =
              part-slice mem _ _ packet 0 (len - s.skip) start (omega arith)
              ∙ ap (λ a. slice mem a (len - s.skip)) (add-zero (s.address - len));
          aligned = aligned_sub s.address len page (omega arith) h.aligned (packet_aligned s p h);
        },
        omega arith,
      )

  -- A round's part of the way back, from `t`, which is `p` or the place where its ring wraps.
  pub back_step :
      (p t q k n rest : ℕ)
      → Wrapped p t
      → t ≡ q + k
      → 0 < k
      → lo ≤ q
      → n ≡ k + rest
      → back mem lo hi p n ≡ back mem lo hi q rest
  back_step p t q zero n rest w there pos low e = absurd (omega arith)
  back_step p t q (suc k) n rest w there pos low e = rw e (
      wrap w
      ∙ (ap (λ x. back mem lo hi x (suc k + rest)) there
          ∙ back_inside mem lo hi q (suc k) rest low))
    where
      wrap : Wrapped p t → back mem lo hi p (suc k + rest) ≡ back mem lo hi t (suc k + rest)
      wrap (inl same) = ap (λ x. back mem lo hi x (suc k + rest)) (sym same)
      wrap (inr border) =
          rw (border.0, border.1, suc-add k rest)
            (back_border mem lo hi (k + rest) (omega (arith, g.not_empty, g.fits)))

  pub behind_step :
      (p t q k n rest : ℕ) (bytes out : List ℕ)
      → Wrapped p t
      → t ≡ q + k
      → lo ≤ q
      → n ≡ k + rest
      → bytes ≡ slice mem q k
      → behind mem lo hi p n ++ out ≡ behind mem lo hi q rest ++ (bytes ++ out)
  behind_step p t q k n rest bytes out w there low e same_bytes =
      rw (e, same_bytes, ← append_assoc (behind mem lo hi q rest))
        (ap (λ r. r ++ out)
          (wrap w
            ∙ (ap (λ x. behind mem lo hi x (k + rest)) there
                ∙ behind_inside mem lo hi q k rest low)))
    where
      wrap : Wrapped p t → behind mem lo hi p (k + rest) ≡ behind mem lo hi t (k + rest)
      wrap (inl same) = ap (λ x. behind mem lo hi x (k + rest)) (sym same)
      wrap (inr border) =
          rw (border.0, border.1)
            (behind_border mem lo hi (k + rest) (omega (arith, g.not_empty, g.fits)))

  pub hand_out_backward-IsBefore :
      (s : RbStream) (p len : ℕ)
      → len ≤ s.available
      → 0 < s.available
      → IsBefore mem page lo hi packet s p
      → let (bytes, s') = hand_out_backward s len in
        (q : ℕ) × (p ≡ q + len)
        × (lo ≤ q)
        × IsBefore mem page lo hi packet s' q
        × (bytes ≡ slice mem q len)
  unfolding hand_out_backward
  hand_out_backward-IsBefore s p len le pos h =
      let left = s.available - len in
      let none_skipped : s.skip ≡ 0 = ground (arith, h.skipped) in
      (
        s.address + left,
        omega (arith, h.place),
        omega (arith, h.low),
        record {
          direction = h.direction;
          same_begin = h.same_begin;
          same_end = h.same_end;
          same_packet = h.same_packet;
          place = omega arith;
          low = h.low;
          high = omega (arith, h.high);
          skipped = inl none_skipped;
          cached =
              part-slice mem s.cache s.address s.available 0 left h.cached (omega arith)
              ∙ ap (λ a. slice mem a left) (add-zero s.address);
          aligned = h.aligned;
        },
        part-slice mem s.cache s.address s.available left len h.cached (omega arith),
      )
