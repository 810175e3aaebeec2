-- ===== src/Prelude/Slices.antt =====
-- Stretches of a memory, a function from addresses to bytes.
use Prim.Native.Nat.{ℕ, zero, suc, ◌+◌, ◌-◌, ◌≤◌}
use mathlib.Core.Path.{◌≡◌, refl, sym, ap, ap₂, ◌∙◌}
use mathlib.Core.List.{List, [], ◌∷◌, ◌++◌}
use native.Mathlib.Nat.{suc-add}
use native.Mathlib.Omega.{arith}
use libdc_swift.Prelude.Lists.{length, take, drop, take-append_self}

pub take-drop-take {ℓ} :
    {A : Type ℓ} (xs : List A) (n j k : ℕ)
    → j + k ≤ n
    → take k (drop j xs) ≡ take k (drop j (take n xs))
take-drop-take xs n j zero h = refl
take-drop-take [] zero zero (suc k) h = refl
take-drop-take [] zero (suc j) (suc k) h = refl
take-drop-take [] (suc n) zero (suc k) h = refl
take-drop-take [] (suc n) (suc j) (suc k) h = refl
take-drop-take (x ∷ xs) zero j (suc k) h = absurd (omega arith)
take-drop-take (x ∷ xs) (suc n) zero (suc k) h =
    ap (λ r. x ∷ r) (take-drop-take xs n 0 k (omega arith))
take-drop-take (x ∷ xs) (suc n) (suc j) (suc k) h = take-drop-take xs n j (suc k) (omega arith)

module _ {ℓ} {A : Type ℓ} (mem : ℕ → A) where
  -- The `n` bytes from address `a` on.
  abbrev pub slice : ℕ → ℕ → List A
  slice a zero = []
  slice a (suc n) = mem a ∷ slice (a + 1) n

  pub length-slice : (a n : ℕ) → length (slice a n) ≡ n
  length-slice a zero = refl
  length-slice a (suc n) = ap suc (length-slice (a + 1) n)

  pub slice-append : (a n b k : ℕ) → a + n ≡ b → slice a n ++ slice b k ≡ slice a (n + k)
  slice-append a zero b k e = ap₂ slice (omega arith) (omega arith)
  slice-append a (suc n) b k e =
      rw (suc-add n k) (ap (λ r. mem a ∷ r) (slice-append (a + 1) n b k (omega arith)))

  pub take-slice : (k a n : ℕ) → k ≤ n → take k (slice a n) ≡ slice a k
  take-slice zero a n h = refl
  take-slice (suc k) a zero h = absurd (omega arith)
  take-slice (suc k) a (suc n) h = ap (λ r. mem a ∷ r) (take-slice k (a + 1) n (omega arith))

  -- A list that starts with a stretch of the memory.
  pub take-append_slice :
      (xs rest : List A) (a n : ℕ) → xs ≡ slice a n → take n (xs ++ rest) ≡ slice a n
  take-append_slice xs rest a n e =
      let full : n ≡ length xs = sym (ap length e ∙ length-slice a n) in
      ap (λ k. take k (xs ++ rest)) full ∙ (take-append_self xs rest ∙ e)

  pub drop-slice : (j a n : ℕ) → j ≤ n → drop j (slice a n) ≡ slice (a + j) (n - j)
  drop-slice zero a n h = ap₂ slice (omega arith) (omega arith)
  drop-slice (suc j) a zero h = absurd (omega arith)
  drop-slice (suc j) a (suc n) h =
      drop-slice j (a + 1) n (omega arith) ∙ ap₂ slice (omega arith) (omega arith)

  -- A part of a list whose first `n` elements are a stretch of the memory.
  pub part-slice :
      (xs : List A) (a n j k : ℕ)
      → take n xs ≡ slice a n
      → j + k ≤ n
      → take k (drop j xs) ≡ slice (a + j) k
  part-slice xs a n j k e h =
      take-drop-take xs n j k h
      ∙ (ap (λ l. take k (drop j l)) e
          ∙ (ap (take k) (drop-slice j a n (omega arith))
              ∙ take-slice k (a + j) (n - j) (omega arith)))
