-- ===== src/Common/RbStream/Standing.antt =====
-- Where in its ring a stream stands, and what a call of `dc_rbstream_read` is to return.
use native.Mathlib.Nat.{add-mod, zero-mod, mod-mod, add-zero}
use libdc_swift.Prelude.{
  ℕ, ◌+◌, ◌^◌, ◌-◌, ◌%◌, sym, ap, ◌∙◌, ◌≤◌, ◌<◌, ◌≡◌, ◌⊎◌, List, take, drop, ok, err, Error, Result,
  Call, slice, bind, arith,
}
use libdc_swift.Common.RbStream.{RbStream, forward, backward, chunk}

-- What `dc_rbstream_new` asks of a ring from `lo` to `hi` and of packets of `packet` bytes, for pages
-- of `page` bytes in a memory that ends below 2 GiB.
pub record IsPacketed (page lo hi packet : ℕ) : Type 0 where
  pub not_empty : 0 < packet
  pub fits : lo + packet ≤ hi
  pub small : hi ≤ 2 ^ 31
  pub begin_aligned : lo % page ≡ 0
  pub end_aligned : hi % page ≡ 0
  pub packet_aligned : packet % page ≡ 0

module _ (mem : ℕ → ℕ) (page lo hi packet : ℕ) where
  -- The next byte that the stream hands out is the one before `p`.
  pub record IsBefore (s : RbStream) (p : ℕ) : Type 0 where
    pub direction : s.direction ≡ backward
    pub same_begin : s.begin ≡ lo
    pub same_end : s.end ≡ hi
    pub same_packet : s.packetsize ≡ packet
    pub place : p + s.skip ≡ s.address + s.available
    pub low : lo ≤ s.address
    pub high : s.address + s.available ≤ hi
    pub skipped : (s.skip ≡ 0) ⊎ ((s.available ≡ 0) × (lo + s.skip < s.address) × (s.skip < packet))
    pub cached : take s.available s.cache ≡ slice mem s.address s.available
    pub aligned : s.address % page ≡ 0

  -- The next byte that the stream hands out is the one at `p`.
  pub record IsAt (s : RbStream) (p : ℕ) : Type 0 where
    pub direction : s.direction ≡ forward
    pub same_begin : s.begin ≡ lo
    pub same_end : s.end ≡ hi
    pub same_packet : s.packetsize ≡ packet
    pub place : p + s.available ≡ s.address + s.skip
    pub low : lo + s.available ≤ s.address
    pub high : s.address ≤ hi
    pub skipped : (s.skip ≡ 0) ⊎ ((s.available ≡ 0) × (s.address + s.skip < hi) × (s.skip < packet))
    pub cached : take s.available (drop s.offset s.cache) ≡ slice mem p s.available
    pub aligned : s.address % page ≡ 0

-- `keeps` is what the device guarantees between two reads, `failing` which errors a read may have.
module _ {W : Type 0} (keeps : W → Type 0) (failing : Error → Type 0) where
  abbrev pub Serves : List ℕ → Result (List ℕ) × W → Type 0
  Serves bytes (ok answer, w) = (answer ≡ bytes) × keeps w
  Serves bytes (err e, w) = failing e × keeps w

  -- Reads of a packet that lies in the ring and starts on a page are known to return the memory.
  abbrev pub Device : (ℕ → ℕ) → ℕ → ℕ → ℕ → ℕ → (ℕ → ℕ → Call W (List ℕ)) → Type 0
  Device mem page lo hi packet read =
      (a : ℕ) (w : W)
      → keeps w
      → a % page ≡ 0
      → lo ≤ a
      → a + packet ≤ hi
      → Serves (slice mem a packet) (read a packet w)

  -- The bytes are returned and the stream stands at `p`, or a read of the device has failed.
  abbrev pub Delivers :
      (RbStream → ℕ → Type 0) → List ℕ → ℕ → Result (List ℕ) × (RbStream × W) → Type 0
  Delivers stands bytes p (ok out, (s, w)) = (out ≡ bytes) × stands s p × keeps w
  Delivers stands bytes p (err e, (s, w)) = failing e × keeps w

  -- A stream that stands at one of the places `p` has bytes at hand.
  abbrev pub Filled :
      (RbStream → ℕ → Type 0) → (ℕ → Type 0) → Result (Unit {0}) × (RbStream × W) → Type 0
  Filled stands places (ok u, (s, w)) =
      (p : ℕ) × places p × stands s p × (0 < s.available) × keeps w
  Filled stands places (err e, (s, w)) = failing e × keeps w

  pub bind-Delivers :
      (stands : RbStream → ℕ → Type 0) (places : ℕ → Type 0) (bytes : List ℕ) (p : ℕ)
      (r : Result (Unit {0}) × (RbStream × W)) (rest : Call (RbStream × W) (List ℕ))
      → Filled stands places r
      → ((s : RbStream) (w : W) (q : ℕ)
          → places q
          → stands s q
          → 0 < s.available
          → keeps w
          → Delivers stands bytes p (rest (s, w)))
      → Delivers stands bytes p (bind r (λ _. rest))
  bind-Delivers stands places bytes p (ok u, (s, w)) rest (q, here, at, some_bytes, k) go =
      go s w q here at some_bytes k
  bind-Delivers stands places bytes p (err e, (s, w)) rest h go = h

-- How much a round hands out: at least one byte, no more than are at hand or still asked for.
pub chunk_lem :
    (s : RbStream) (size nbytes : ℕ)
    → 0 < s.available
    → s.available ≤ 2 ^ 31
    → nbytes < size
    → size ≤ 2 ^ 31
    → (0 < chunk s size nbytes)
      × (chunk s size nbytes ≤ s.available)
      × (nbytes + chunk s size nbytes ≤ size)
unfolding chunk
chunk_lem s size nbytes a b c d = ground arith

-- The page grid.
pub aligned_add : (a b n : ℕ) → a % n ≡ 0 → b % n ≡ 0 → (a + b) % n ≡ 0
aligned_add a b n h k = rw (add-mod a b n, h, k) (zero-mod n)

pub aligned_sub : (a b n : ℕ) → b ≤ a → a % n ≡ 0 → b % n ≡ 0 → (a - b) % n ≡ 0
aligned_sub a b n le h k =
    let whole : a - b + b ≡ a = omega arith in
    let same : (a - b) % n ≡ (a - b + b) % n =
      rw (add-mod (a - b) b n, k, add-zero ((a - b) % n)) (sym (mod-mod (a - b) n)) in
    same ∙ (ap (λ x. x % n) whole ∙ h)
