-- ===== src/Common/Ring/Walk.antt =====
-- Walking round the ring.
use native.Mathlib.Nat.{mod-eq_of_lt, mod-eq-sub-mod, mod-lt}
use libdc_swift.Prelude.{
  ℕ, ◌+◌, ◌-◌, ◌%◌, ◌^◌, ◌≤◌, ◌<◌, ◌≡◌, ◌∙◌, ◌⊎◌, inl, inr, Bool, false, arith, ltb, Bool-cases,
}
use libdc_swift.Common.Ring.{
  modulo, distance, ringbuffer_distance, ringbuffer_increment, ringbuffer_decrement,
}

pub mod-cases : (x n : ℕ) → x < n + n → ((x < n) × (x % n ≡ x)) ⊎ ((n ≤ x) × (x % n ≡ x - n))
mod-cases x n h = elim (Bool-cases (ltb x n)) [
  | inl lt ↦ inl (ground arith, mod-eq_of_lt (ground arith))
  | inr ge ↦ inr (ground arith, mod-eq-sub-mod (ground arith) ∙ mod-eq_of_lt (ground arith))
]

-- Walking `d` bytes on from `a` in a ring of `n` bytes ends at `b`. Both ends of the ring stand for
-- the same place.
abbrev pub Reaches : ℕ → ℕ → ℕ → ℕ → Type 0
Reaches n a d b = (a + d ≡ b) ⊎ ((a + d ≡ b + n) ⊎ ((a + d ≡ b + n + n) ⊎ (a + d + n ≡ b)))

distance-Reaches :
    (a b n : ℕ) (full : Bool)
    → 0 < n
    → a ≤ b + n
    → b ≤ a + n
    → Reaches n a (distance a b n full) b
      × (distance a b n full ≤ n)
      × ((full ≡ false) ⊎ (0 < distance a b n full))
unfolding distance
distance-Reaches a b n full p h k = elim (mod-cases (a - b) n (omega arith)) [
  | inl x ↦ elim (mod-cases (b - a) n (omega arith)) [ inl y ↦ ground arith | inr y ↦ ground arith ]
  | inr x ↦ elim (mod-cases (b - a) n (omega arith)) [ inl y ↦ ground arith | inr y ↦ ground arith ]
]

-- The distance from one address of the ring to another leads there, is at most the ring's size, and
-- is not 0 where a full ring is meant.
pub ringbuffer_distance-Reaches :
    (a b begin end : ℕ) (full : Bool)
    → begin < end
    → begin ≤ a
    → a ≤ end
    → begin ≤ b
    → b ≤ end
    → let d = ringbuffer_distance a b full begin end in
      Reaches (end - begin) a d b × (d ≤ end - begin) × ((full ≡ false) ⊎ (0 < d))
unfolding ringbuffer_distance
ringbuffer_distance-Reaches a b begin end full p h1 h2 h3 h4 =
    distance-Reaches a b (end - begin) full (omega arith) (omega arith) (omega arith)

modulo_in : (x n d : ℕ) → d ≤ x → modulo x n d ≡ (x - d) % n + d
unfolding modulo
modulo_in x n d h = ground arith

-- A step back by the same number of bytes undoes a step forward from an address in the ring, where
-- no address of two rings wraps.
pub ringbuffer_decrement-ringbuffer_increment :
    (a delta begin end : ℕ)
    → begin ≤ a
    → a < end
    → end ≤ 2 ^ 30
    → ringbuffer_decrement (ringbuffer_increment a delta begin end) delta begin end ≡ a
unfolding ringbuffer_decrement ringbuffer_increment
ringbuffer_decrement-ringbuffer_increment a delta begin end low high bound =
    let n = end - begin in
    let k = delta % n in
    let small : k < n = mod-lt delta (omega arith) in
    let forward : (a + k) % 2 ^ 32 ≡ a + k = omega arith in
    rw (forward, modulo_in (a + k) n begin (omega arith))
      (back a k n begin small (omega arith) low (omega arith))
  where
    back :
        (a k n begin : ℕ)
        → k < n
        → a < begin + n
        → begin ≤ a
        → begin + n ≤ 2 ^ 30
        → modulo (((a + k - begin) % n + begin + n - k) % 2 ^ 32) n begin ≡ a
    back a k n begin small high low bound = elim (mod-cases (a + k - begin) n (omega arith)) [
      | inl x ↦
          let there : ((a + k - begin) % n + begin + n - k) % 2 ^ 32 ≡ a + n = omega (arith, x.1) in
          rw (there, modulo_in (a + n) n begin (omega arith))
            (elim (mod-cases (a + n - begin) n (omega arith)) [
              | inl y ↦ absurd (omega (arith, y.0))
              | inr y ↦ omega (arith, y.1)
            ])
      | inr x ↦
          let there : ((a + k - begin) % n + begin + n - k) % 2 ^ 32 ≡ a = omega (arith, x.1) in
          rw (there, modulo_in a n begin low)
            (elim (mod-cases (a - begin) n (omega arith)) [
              | inl y ↦ omega (arith, y.1)
              | inr y ↦ absurd (omega (arith, y.0))
            ])
    ]
