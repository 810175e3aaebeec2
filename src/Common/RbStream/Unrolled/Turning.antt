-- ===== src/Common/RbStream/Unrolled/Turning.antt =====
-- Going on through a ring and back again.
use native.Mathlib.Nat.{zero-add, add-zero, suc-add}
use libdc_swift.Prelude.{
  ℕ, zero, suc, ◌+◌, ◌-◌, ◌≤◌, ◌<◌, ◌≡◌, refl, sym, ap, ◌∙◌, inl, inr, [], ◌∷◌, ◌++◌, arith, ltb,
  ltb→lt, Bool-cases, take,
}
use libdc_swift.Common.Ring.Walk.{Reaches}
use libdc_swift.Common.RbStream.Unrolled.{
  here, prior, back, behind, on, ahead, on_inside, on_border,
}

module _ (mem : ℕ → ℕ) (lo hi : ℕ) (wide : lo < hi) where
  -- One place of the ring: both of its ends stand for the same.
  abbrev pub Same : ℕ → ℕ → Type 0
  Same x y = here mem lo hi x ≡ here mem lo hi y

  abbrev pub InBounds : ℕ → Type 0
  InBounds x = (lo ≤ x) × (x ≤ hi)

  prior-Same :
      (x y : ℕ) → InBounds x → InBounds y → Same x y → prior mem lo hi x ≡ prior mem lo hi y
  prior-Same x y h k e = ground arith

  pub behind-Same :
      (x y n : ℕ) → InBounds x → InBounds y → Same x y → behind mem lo hi x n ≡ behind mem lo hi y n
  unfolding behind
  behind-Same x y zero h k e = refl
  behind-Same x y (suc n) h k e =
      ap (λ p. behind mem lo hi p n ++ mem p ∷ []) (prior-Same x y h k e)

  pub back-Same :
      (x y n : ℕ)
      → InBounds x
      → InBounds y
      → Same x y
      → Same (back mem lo hi x n) (back mem lo hi y n)
  unfolding back
  back-Same x y zero h k e = e
  back-Same x y (suc n) h k e = ap (λ p. here mem lo hi (back mem lo hi p n)) (prior-Same x y h k e)

  pub on-Same : (x y n : ℕ) → Same x y → Same (on mem lo hi x n) (on mem lo hi y n)
  unfolding on
  on-Same x y zero e = e
  on-Same x y (suc n) e = ap (λ p. here mem lo hi (on mem lo hi (p + 1) n)) e

  pub on-InBounds : (x n : ℕ) → InBounds x → InBounds (on mem lo hi x n)
  unfolding on
  on-InBounds x zero h = h
  on-InBounds x (suc n) h = on-InBounds (here mem lo hi x + 1) n (ground arith)

  pub back-InBounds : (x n : ℕ) → InBounds x → InBounds (back mem lo hi x n)
  unfolding back
  back-InBounds x zero h = h
  back-InBounds x (suc n) h = back-InBounds (prior mem lo hi x) n (ground arith)

  pub on_on : (x n k : ℕ) → on mem lo hi (on mem lo hi x n) k ≡ on mem lo hi x (n + k)
  unfolding on
  on_on x zero k = rw (zero-add k)
  on_on x (suc n) k = rw (suc-add n k) (on_on (here mem lo hi x + 1) n k)

  -- The last step.
  on_last : (x n : ℕ) → on mem lo hi x (suc n) ≡ here mem lo hi (on mem lo hi x n) + 1
  unfolding on
  on_last x zero = refl
  on_last x (suc n) = on_last (here mem lo hi x + 1) n

  ahead_last :
      (x n : ℕ)
      → ahead mem lo hi x (suc n)
        ≡ ahead mem lo hi x n ++ mem (here mem lo hi (on mem lo hi x n)) ∷ []
  unfolding ahead on
  ahead_last x zero = refl
  ahead_last x (suc n) = ap (λ r. mem (here mem lo hi x) ∷ r) (ahead_last (here mem lo hi x + 1) n)

  prior_next : (x : ℕ) → InBounds x → prior mem lo hi (here mem lo hi x + 1) ≡ here mem lo hi x
  prior_next x h = ground arith

  here_here : (x : ℕ) → Same (here mem lo hi x) x
  here_here x = ground arith

  here-InBounds : (x : ℕ) → InBounds x → InBounds (here mem lo hi x)
  here-InBounds x h = ground arith

  -- Back again the same bytes are passed, and the place is the one that was left.
  pub behind-on :
      (x n : ℕ) → InBounds x → behind mem lo hi (on mem lo hi x n) n ≡ ahead mem lo hi x n
  unfolding behind ahead
  behind-on x zero h = refl
  behind-on x (suc n) h =
      let y = on mem lo hi x n in
      let inside = on-InBounds x n h in
      rw (on_last x n, ahead_last x n)
        (ap (λ p. behind mem lo hi p n ++ mem p ∷ []) (prior_next y inside)
          ∙ ap (λ r. r ++ mem (here mem lo hi y) ∷ [])
              (behind-Same (here mem lo hi y) y n (here-InBounds y inside) inside (here_here y)
                ∙ behind-on x n h))

  pub back-on : (x n : ℕ) → InBounds x → Same (back mem lo hi (on mem lo hi x n) n) x
  unfolding back
  back-on x zero h = unfold on in refl
  back-on x (suc n) h =
      let y = on mem lo hi x n in
      let inside = on-InBounds x n h in
      rw (on_last x n) (
        ap (λ p. here mem lo hi (back mem lo hi p n)) (prior_next y inside)
        ∙ (back-Same (here mem lo hi y) y n (here-InBounds y inside) inside (here_here y)
            ∙ back-on x n h))

  on_below : (a d : ℕ) → a + d ≤ hi → on mem lo hi a d ≡ a + d
  unfolding on
  on_below a d h = ap (on mem lo hi a) (sym (add-zero d)) ∙ on_inside mem lo hi a d 0 h

  on_above : (a d m : ℕ) → a ≤ hi → hi - a + suc m ≡ d → d ≤ hi - lo → on mem lo hi a d ≡ lo + suc m
  on_above a d m h split small =
      let top : a + (hi - a) ≡ hi = omega arith in
      rw (← split) (
        on_inside mem lo hi a (hi - a) (suc m) (omega arith)
        ∙ (ap (λ x. on mem lo hi x (suc m)) top
            ∙ (on_border mem lo hi m wide ∙ on_below lo (suc m) (omega arith))))

  -- Where a walk of at most one round ends.
  pub on_reaches :
      (a d b : ℕ)
      → InBounds a
      → InBounds b
      → d ≤ hi - lo
      → Reaches (hi - lo) a d b
      → Same (on mem lo hi a d) b
  on_reaches a d b h k small r = elim (Bool-cases (ltb hi (a + d))) [
    | inr low ↦ let e = on_below a d (ground arith) in rw e (ground (arith, r))
    | inl high ↦
        let more : hi < a + d = ltb→lt hi (a + d) high in
        let e = on_above a d (a + d - hi - 1) h.1 (omega arith) small in rw e (ground (arith, r))
  ]

  -- The bytes before a place, if the ones on from another lead there.
  pub behind_reached :
      (a n p : ℕ)
      → InBounds a
      → InBounds p
      → Same (on mem lo hi a n) p
      → (behind mem lo hi p n ≡ ahead mem lo hi a n) × Same (back mem lo hi p n) a
  behind_reached a n p h k e =
      let inside = on-InBounds a n h in
      (
        behind-Same p (on mem lo hi a n) n k inside (sym e) ∙ behind-on a n h,
        back-Same p (on mem lo hi a n) n k inside (sym e) ∙ back-on a n h,
      )

  -- A part of them.
  pub take-ahead : (k n x : ℕ) → k ≤ n → take k (ahead mem lo hi x n) ≡ ahead mem lo hi x k
  unfolding ahead
  take-ahead zero n x h = refl
  take-ahead (suc k) zero x h = absurd (omega arith)
  take-ahead (suc k) (suc n) x h =
      ap (λ r. mem (here mem lo hi x) ∷ r) (take-ahead k n (here mem lo hi x + 1) (omega arith))
