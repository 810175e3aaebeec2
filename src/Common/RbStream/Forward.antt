-- ===== src/Common/RbStream/Forward.antt =====
-- One round of `dc_rbstream_read_forward`: the stream and the way on through the ring.
pub mod Rounds
use native.Mathlib.Nat.{add-zero, suc-add}
use libdc_swift.Prelude.{
  ℕ, zero, suc, ◌+◌, ◌-◌, ◌%◌, ◌≤◌, ◌<◌, ◌≡◌, refl, sym, ap, ◌∙◌, ◌⊎◌, inl, inr, List, [], ◌++◌,
  take, drop, length, arith, Bool-cases, ltb, ◌==◌, slice, part-slice, take-append_slice,
  append_assoc, drop-drop,
}
use libdc_swift.Atom2.Types.{u32}
use libdc_swift.Common.RbStream.{
  RbStream, wrap_forward, packet_forward, load_forward, hand_out_forward,
}
use libdc_swift.Common.RbStream.Unrolled.{
  on, ahead, on_inside, ahead_inside, on_border, ahead_border,
}
use libdc_swift.Common.RbStream.Standing.{aligned_sub, aligned_add, IsPacketed, IsAt}

module _ (mem : ℕ → ℕ) (page lo hi packet : ℕ) (g : IsPacketed page lo hi packet) where
  -- The same place, where the top of the ring may have become its bottom.
  abbrev pub Wrapped : ℕ → ℕ → Type 0
  Wrapped p q = (q ≡ p) ⊎ ((p ≡ hi) × (q ≡ lo))

  -- A stream with an empty cache after the wrap point was handled.
  pub wrap_forward-IsAt :
      (s : RbStream) (p : ℕ)
      → s.available ≡ 0
      → IsAt mem page lo hi packet s p
      → let s' = wrap_forward s in
        (q : ℕ) × Wrapped p q
        × IsAt mem page lo hi packet s' q
        × (s'.available ≡ 0)
        × (s'.address < hi)
  unfolding wrap_forward
  wrap_forward-IsAt s p e h = elim (Bool-cases (s.address == s.end)) [
    | inl b ↦ rw b (
      lo,
      inr (ground (arith, h.skipped, h.same_end), refl),
      record {
        direction = h.direction;
        same_begin = h.same_begin;
        same_end = h.same_end;
        same_packet = h.same_packet;
        place = ground (arith, h.skipped, h.same_begin, h.same_end);
        low = omega (arith, h.same_begin);
        high = omega (arith, h.same_begin, g.fits);
        skipped = ground (arith, h.skipped, h.same_end);
        cached = rw e refl;
        aligned = ap (λ x. x % page) h.same_begin ∙ g.begin_aligned;
      },
      e,
      omega (arith, h.same_begin, g.fits, g.not_empty),
    )
    | inr n ↦ rw n (p, inl refl, h, e, ground (arith, h.high, h.same_end))
  ]

  pub packet_bounds :
      (s : RbStream) (p : ℕ)
      → s.available ≡ 0
      → s.address < hi
      → IsAt mem page lo hi packet s p
      → let len = packet_forward s in
        (s.skip < len) × (len ≤ packet) × (s.address + len ≤ hi) × (lo + packet ≤ s.address + len)
  unfolding packet_forward
  packet_bounds s p e high h =
      ground (arith, g.not_empty, g.fits, g.small, h.same_end, h.same_packet, h.skipped, h.low)

  pub packet_aligned :
      (s : RbStream) (p : ℕ) → IsAt mem page lo hi packet s p → packet_forward s % page ≡ 0
  unfolding packet_forward
  packet_aligned s p h = elim (Bool-cases (ltb s.end (u32 (s.address + s.packetsize)))) [
    | inl t ↦ rw t (
        ap (λ x. (x - s.address) % page) h.same_end
        ∙ aligned_sub hi s.address page h.high g.end_aligned h.aligned)
    | inr f ↦ rw f (ap (λ x. x % page) h.same_packet ∙ g.packet_aligned)
  ]

  -- The packet in the cache.
  pub load_forward-IsAt :
      (s : RbStream) (p : ℕ) (answer : List ℕ)
      → s.available ≡ 0
      → s.address < hi
      → IsAt mem page lo hi packet s p
      → answer ≡ slice mem (s.address - (packet - packet_forward s)) packet
      → IsAt mem page lo hi packet (load_forward s (packet_forward s) answer) p
        × (0 < (load_forward s (packet_forward s) answer).available)
  unfolding load_forward
  load_forward-IsAt s p answer e high h served =
      let len = packet_forward s in
      let b = packet_bounds s p e high h in
      let start = take-append_slice mem answer (drop (length answer) s.cache) _ packet served in
      let from = s.packetsize - len + s.skip in
      let exact : u32 (s.address + len) ≡ s.address + len = omega (arith, g.small) in
      let whence : s.address - (packet - len) + from ≡ p = omega (arith, h.place, h.same_packet) in
      (
        record {
          direction = h.direction;
          same_begin = h.same_begin;
          same_end = h.same_end;
          same_packet = h.same_packet;
          place = omega (arith, g.small, h.place);
          low = omega (arith, g.small);
          high = omega (arith, g.small);
          skipped = inl refl;
          cached =
              part-slice mem _ _ packet from (len - s.skip) start (omega (arith, h.same_packet))
              ∙ ap (λ a. slice mem a (len - s.skip)) whence;
          aligned =
              ap (λ x. x % page) exact
              ∙ aligned_add s.address len page h.aligned (packet_aligned s p h);
        },
        omega arith,
      )

  -- A round's part of the way on, from `t`, which is `p` or the place where its ring wraps.
  pub on_step :
      (p t k n rest : ℕ)
      → Wrapped p t
      → 0 < k
      → t + k ≤ hi
      → n ≡ k + rest
      → on mem lo hi p n ≡ on mem lo hi (t + k) rest
  on_step p t zero n rest w pos high e = absurd (omega arith)
  on_step p t (suc k) n rest w pos high e = rw e (wrap w ∙ on_inside mem lo hi t (suc k) rest high)
    where
      wrap : Wrapped p t → on mem lo hi p (suc k + rest) ≡ on mem lo hi t (suc k + rest)
      wrap (inl same) = ap (λ x. on mem lo hi x (suc k + rest)) (sym same)
      wrap (inr border) =
          rw (border.0, border.1, suc-add k rest)
            (on_border mem lo hi (k + rest) (omega (arith, g.not_empty, g.fits)))

  pub ahead_step :
      (p t k n rest : ℕ) (bytes out : List ℕ)
      → Wrapped p t
      → t + k ≤ hi
      → n ≡ k + rest
      → bytes ≡ slice mem t k
      → out ++ ahead mem lo hi p n ≡ (out ++ bytes) ++ ahead mem lo hi (t + k) rest
  ahead_step p t k n rest bytes out w high e same_bytes =
      rw (e, same_bytes, append_assoc out)
        (ap (λ r. out ++ r) (wrap w ∙ ahead_inside mem lo hi t k rest high))
    where
      wrap : Wrapped p t → ahead mem lo hi p (k + rest) ≡ ahead mem lo hi t (k + rest)
      wrap (inl same) = ap (λ x. ahead mem lo hi x (k + rest)) (sym same)
      wrap (inr border) =
          rw (border.0, border.1)
            (ahead_border mem lo hi (k + rest) (omega (arith, g.not_empty, g.fits)))

  pub hand_out_forward-IsAt :
      (s : RbStream) (p len : ℕ)
      → len ≤ s.available
      → 0 < s.available
      → IsAt mem page lo hi packet s p
      → let (bytes, s') = hand_out_forward s len in
        (p + len ≤ hi) × IsAt mem page lo hi packet s' (p + len) × (bytes ≡ slice mem p len)
  unfolding hand_out_forward
  hand_out_forward-IsAt s p len le pos h =
      let left = s.available - len in
      let none_skipped : s.skip ≡ 0 = ground (arith, h.skipped) in
      (
        omega (arith, h.place, h.high),
        record {
          direction = h.direction;
          same_begin = h.same_begin;
          same_end = h.same_end;
          same_packet = h.same_packet;
          place = omega (arith, h.place);
          low = omega (arith, h.low);
          high = h.high;
          skipped = inl none_skipped;
          cached = rw (← drop-drop s.offset len s.cache) (
              part-slice mem (drop s.offset s.cache) p s.available len left h.cached (omega arith));
          aligned = h.aligned;
        },
        part-slice mem (drop s.offset s.cache) p s.available 0 len h.cached (omega arith)
            ∙ ap (λ a. slice mem a len) (add-zero p),
      )
