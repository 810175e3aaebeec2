-- ===== src/Common/RbStream/Unrolled.antt =====
-- A ring of bytes unrolled: the bytes before a place and those from a place on, without end.
pub mod Turning
use native.Mathlib.Nat.{suc-add, zero-add, add-zero}
use libdc_swift.Prelude.{
  ℕ, zero, suc, ◌+◌, ◌-◌, ◌≤◌, ◌<◌, ◌≡◌, refl, ap, ◌∙◌, List, [], ◌∷◌, ◌++◌, arith, ◌==◌,
  if◌then◌else◌, slice, slice-append, append_assoc, append-nil,
}

-- A ring of the addresses from `lo` to `hi`, exclusive, of a memory. Both ends stand for one place.
module _ (mem : ℕ → ℕ) (lo hi : ℕ) where
  -- One byte back, and on to the byte at a place.
  abbrev pub prior : ℕ → ℕ
  prior p = (if p == lo then hi else p) - 1

  abbrev pub here : ℕ → ℕ
  here p = if p == hi then lo else p

  -- `n` bytes back, and the bytes passed, in the order of the memory.
  unfoldable pub back : ℕ → ℕ → ℕ
  back p zero = p
  back p (suc n) = back (prior p) n

  unfoldable pub behind : ℕ → ℕ → List ℕ
  behind p zero = []
  behind p (suc n) = behind (prior p) n ++ mem (prior p) ∷ []

  -- `n` bytes on, and the bytes passed.
  unfoldable pub on : ℕ → ℕ → ℕ
  on p zero = p
  on p (suc n) = on (here p + 1) n

  unfoldable pub ahead : ℕ → ℕ → List ℕ
  ahead p zero = []
  ahead p (suc n) = mem (here p) ∷ ahead (here p + 1) n

  prior_inside : (a k : ℕ) → lo ≤ a → prior (a + suc k) ≡ a + k
  prior_inside a k h = ground arith

  -- A stretch that does not cross the border.
  pub back_inside : (a k n : ℕ) → lo ≤ a → back (a + k) (k + n) ≡ back a n
  unfolding back
  back_inside a zero n h = rw (add-zero a, zero-add n)
  back_inside a (suc k) n h =
      rw (suc-add k n) (ap (λ p. back p (k + n)) (prior_inside a k h) ∙ back_inside a k n h)

  slice_snoc : (a k : ℕ) → slice mem a k ++ mem (a + k) ∷ [] ≡ slice mem a (suc k)
  slice_snoc a k =
      let more : k + 1 ≡ suc k = omega arith in
      slice-append mem a k (a + k) 1 refl ∙ ap (slice mem a) more

  pub behind_inside : (a k n : ℕ) → lo ≤ a → behind (a + k) (k + n) ≡ behind a n ++ slice mem a k
  unfolding behind
  behind_inside a zero n h = rw (add-zero a, zero-add n, append-nil (behind a n))
  behind_inside a (suc k) n h =
      rw (suc-add k n, prior_inside a k h, behind_inside a k n h, append_assoc (behind a n))
        (ap (λ r. behind a n ++ r) (slice_snoc a k))

  here_inside : (a k : ℕ) → a + suc k ≤ hi → here a ≡ a
  here_inside a k h = ground arith

  pub on_inside : (a k n : ℕ) → a + k ≤ hi → on a (k + n) ≡ on (a + k) n
  unfolding on
  on_inside a zero n h = rw (add-zero a, zero-add n)
  on_inside a (suc k) n h =
      let next : a + suc k ≡ a + 1 + k = omega arith in
      rw (suc-add k n, next)
        (ap (λ p. on (p + 1) (k + n)) (here_inside a k h) ∙ on_inside (a + 1) k n (omega arith))

  pub ahead_inside : (a k n : ℕ) → a + k ≤ hi → ahead a (k + n) ≡ slice mem a k ++ ahead (a + k) n
  unfolding ahead
  ahead_inside a zero n h = rw (add-zero a, zero-add n)
  ahead_inside a (suc k) n h =
      let next : a + suc k ≡ a + 1 + k = omega arith in
      rw (suc-add k n, here_inside a k h, next)
        (ap (λ r. mem a ∷ r) (ahead_inside (a + 1) k n (omega arith)))

  -- The border.
  pub back_border : (n : ℕ) → lo < hi → back lo (suc n) ≡ back hi (suc n)
  unfolding back
  back_border n h = ap (λ p. back p n) (ground arith)

  pub behind_border : (n : ℕ) → lo < hi → behind lo n ≡ behind hi n
  unfolding behind
  behind_border zero h = refl
  behind_border (suc n) h =
      let same : prior lo ≡ prior hi = ground arith in ap (λ p. behind p n ++ mem p ∷ []) same

  pub on_border : (n : ℕ) → lo < hi → on hi (suc n) ≡ on lo (suc n)
  unfolding on
  on_border n h = ap (λ p. on p n) (ground arith)

  pub ahead_border : (n : ℕ) → lo < hi → ahead hi n ≡ ahead lo n
  unfolding ahead
  ahead_border zero h = refl
  ahead_border (suc n) h =
      let same : here hi ≡ here lo = ground arith in ap (λ p. mem p ∷ ahead (p + 1) n) same
