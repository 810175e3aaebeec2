-- ===== src/Common/Logbook/Entries.antt =====
-- The entries of a logbook that a download is to return, and the loop that reads them.
use native.Mathlib.Nat.{suc-mul}
use libdc_swift.Prelude.{
  ℕ, zero, suc, ◌+◌, ◌-◌, ◌*◌, ◌^◌, ◌≤◌, ◌<◌, ◌≡◌, refl, sym, ◌∙◌, ◌⊎◌, inl, inr, Bool, true, false,
  ◌||◌, List, [], ◌∷◌, ◌++◌, append_assoc, ok, err, Error, Result, Call, bind, arith, ltb, le→ltb,
  lt→ltb, if◌then◌else◌, Bool-cases, text_eq, overrun,
}
use libdc_swift.Common.RbStream.{RbStream, Direction, rbstream_read}
use libdc_swift.Common.RbStream.Standing.{IsPacketed, Device, Delivers}
use libdc_swift.Common.RbStream.Opening.{Stands}
use libdc_swift.Common.RbStream.Reading.{stretch, passed, rbstream_read-Delivers}
use libdc_swift.Common.Profile.{is_uninitialized}
use libdc_swift.Common.Logbook.{look_at, logbook_rounds}

-- The `k` entries of `size` bytes from a place on in the unrolled ring, the most recent one first.
unfoldable pub entries : (ℕ → ℕ) → ℕ → ℕ → Direction → ℕ → ℕ → ℕ → List (List ℕ)
entries mem lo hi d size p zero = []
entries mem lo hi d size p (suc k) =
    stretch mem lo hi d p size ∷ entries mem lo hi d size (passed mem lo hi d p size) k

-- An entry that was downloaded before.
pub is_known : List ℕ → List ℕ → Bool
is_known fingerprint e = if is_uninitialized e then false else text_eq e fingerprint

pub has_known : List ℕ → List (List ℕ) → Bool
has_known fingerprint [] = false
has_known fingerprint (e ∷ es) = is_known fingerprint e || has_known fingerprint es

is_known-uninitialized :
    (fingerprint e : List ℕ) → is_uninitialized e ≡ true → is_known fingerprint e ≡ false
unfolding is_known
is_known-uninitialized fingerprint e u = rw u

is_known-text_eq :
    (fingerprint e : List ℕ) {b : Bool}
    → is_uninitialized e ≡ false
    → text_eq e fingerprint ≡ b
    → is_known fingerprint e ≡ b
unfolding is_known
is_known-text_eq fingerprint e u h = rw u h

-- The entries that are more recent than it.
unfoldable pub newer : List ℕ → List (List ℕ) → List (List ℕ)
newer fingerprint [] = []
newer fingerprint (e ∷ es) = if is_known fingerprint e then [] else e ∷ newer fingerprint es

pub dives : List (List ℕ) → ℕ
dives [] = 0
dives (e ∷ es) = (if is_uninitialized e then 0 else 1) + dives es

-- Each entry in front of those that were read earlier.
unfoldable pub joined : List (List ℕ) → List ℕ
joined [] = []
joined (e ∷ es) = joined es ++ e

-- The logbook of the new dives: nothing, if no entry among them is one of a dive.
unfoldable pub logbook_of : List ℕ → List (List ℕ) → List ℕ
unfolding newer dives joined
logbook_of fingerprint es =
    if ltb 0 (dives (newer fingerprint es)) then joined (newer fingerprint es) else []

module _ (mem : ℕ → ℕ) (page lo hi packet : ℕ) (g : IsPacketed page lo hi packet) {W : Type 0}
    (keeps : W → Type 0) (failing : Error → Type 0) (read : ℕ → ℕ → Call W (List ℕ))
    (device : Device keeps failing mem page lo hi packet read) (d : Direction) (size : ℕ)
    (fingerprint : List ℕ) where
  -- The loop has put the new entries of `es` in front of `out` and has counted the dives among them,
  -- or a read of the device has failed, or `r` bytes of the buffer were too few for an entry.
  abbrev pub Collects :
      ℕ → List (List ℕ) → List ℕ → ℕ → Result (List ℕ × ℕ) × (RbStream × W) → Type 0
  Collects r es out count (ok (bytes, n), (s, w)) =
      (bytes ≡ joined (newer fingerprint es) ++ out)
      × (n ≡ count + dives (newer fingerprint es))
      × ((has_known fingerprint es ≡ true) ⊎ (r ≡ 0))
      × keeps w
  Collects r es out count (err e, (s, w)) =
      (failing e ⊎ ((e ≡ overrun) × (has_known fingerprint es ≡ false) × (0 < r))) × keeps w

  -- An entry that is not known is put in front.
  Collects-newer :
      (r : ℕ) (e : List ℕ) (es : List (List ℕ)) (out : List ℕ) (count n : ℕ)
      (res : Result (List ℕ × ℕ) × (RbStream × W))
      → is_known fingerprint e ≡ false
      → n ≡ count + (if is_uninitialized e then 0 else 1)
      → Collects r es (e ++ out) n res
      → Collects r (e ∷ es) out count res
  unfolding newer dives joined has_known
  Collects-newer r e es out count n (ok (bytes, m), (s, w)) new more h =
      rw new (
        h.0 ∙ sym (append_assoc (joined (newer fingerprint es)) e out),
        omega (arith, h.1),
        h.2,
        h.3,
      )
  Collects-newer r e es out count n (err x, (s, w)) new more h = rw new h

  Collects-known :
      (r : ℕ) (e : List ℕ) (es : List (List ℕ)) (out : List ℕ) (count : ℕ) (s : RbStream) (w : W)
      → is_known fingerprint e ≡ true
      → keeps w
      → Collects r (e ∷ es) out count (ok (out, count), (s, w))
  unfolding newer dives joined has_known
  Collects-known r e es out count s w known k = rw known (refl, omega arith, inl refl, k)

  look_at-Collects :
      (r : ℕ) (e : List ℕ) (es : List (List ℕ)) (out : List ℕ) (count : ℕ) (s : RbStream) (w : W)
      (next : List ℕ → ℕ → Call (RbStream × W) (List ℕ × ℕ))
      → keeps w
      → ((o : List ℕ) (n : ℕ) → Collects r es o n (next o n (s, w)))
      → Collects r (e ∷ es) out count (look_at read fingerprint next out count e (s, w))
  unfolding look_at
  look_at-Collects r e es out count s w next k go = elim (Bool-cases (is_uninitialized e)) [
    | inl u ↦ rw u (
        Collects-newer r e es out count count _ (is_known-uninitialized fingerprint e u)
          (rw u (omega arith)) (go _ _))
    | inr v ↦ elim (Bool-cases (text_eq e fingerprint)) [
      | inl t ↦
          rw (v, t) (Collects-known r e es out count s w (is_known-text_eq fingerprint e v t) k)
      | inr f ↦
          rw (v, f)
            (Collects-newer r e es out count (count + 1) _ (is_known-text_eq fingerprint e v f)
              (rw v refl) (go _ _))
    ]
  ]

  -- What follows the read of an entry.
  bind-Collects :
      (stands : RbStream → ℕ → Type 0) (r : ℕ) (e : List ℕ) (p : ℕ) (es : List (List ℕ))
      (out : List ℕ) (count : ℕ) (res : Result (List ℕ) × (RbStream × W))
      (f : List ℕ → Call (RbStream × W) (List ℕ × ℕ))
      → Delivers keeps failing stands e p res
      → ((s : RbStream) (w : W) → stands s p → keeps w → Collects r (e ∷ es) out count (f e (s, w)))
      → Collects r (e ∷ es) out count (bind res f)
  bind-Collects stands r e p es out count (ok x, (s, w)) f (same, at, k) go = rw same (go s w at k)
  bind-Collects stands r e p es out count (err x, (s, w)) f h go = (inl h.0, h.1)

  pub logbook_rounds-Collects :
      (fuel k r left : ℕ) (out : List ℕ) (count p : ℕ) (s : RbStream) (w : W)
      → 0 < size
      → size ≤ 2 ^ 31
      → r < size
      → left ≡ k * size + r
      → left ≤ fuel
      → Stands mem page lo hi packet d s p
      → keeps w
      → Collects r
          (entries mem lo hi d size p k)
          out
          count
          (logbook_rounds read fuel size fingerprint left out count (s, w))
  unfolding logbook_rounds entries newer dives joined has_known
  logbook_rounds-Collects zero zero r left out count p s w pos small rest split fuelled at k =
      let none_left : ltb 0 left ≡ false = le→ltb (omega arith) in
      rw none_left (refl, omega arith, inr (omega arith), k)
  logbook_rounds-Collects zero (suc n) r left out count p s w pos small rest split fuelled at k =
      absurd (omega (arith, suc-mul n size))
  logbook_rounds-Collects (suc fuel) zero r left out count p s w pos small rest split fuelled at k =
      elim (Bool-cases (ltb 0 left)) [
        | inl more ↦
            let short : ltb left size ≡ true = lt→ltb left size (omega arith) in
            rw (more, short) (inr (refl, refl, ground arith), k)
        | inr end ↦ rw end (refl, omega arith, inr (ground arith), k)
      ]
  logbook_rounds-Collects (suc fuel) (suc n) r left out count p s w pos small rest split fuelled at
        k =
      let more : ltb 0 left ≡ true = lt→ltb 0 left (omega (arith, suc-mul n size)) in
      let whole : ltb left size ≡ false = le→ltb (omega (arith, suc-mul n size)) in
      rw (more, whole)
        (bind-Collects (Stands mem page lo hi packet d) r (stretch mem lo hi d p size)
          (passed mem lo hi d p size) _ out count (rbstream_read read size (s, w)) _
          (rbstream_read-Delivers mem page lo hi packet g keeps failing read device d size s w p
            small at k)
          (λ s' w' at' k'.
            look_at-Collects r (stretch mem lo hi d p size)
              (entries mem lo hi d size (passed mem lo hi d p size) n) out count s' w'
              (logbook_rounds read fuel size fingerprint (left - size)) k'
              (λ o m.
                logbook_rounds-Collects fuel n r (left - size) o m _ s' w' pos small rest
                  (omega (arith, suc-mul n size)) (omega arith) at' k')))
