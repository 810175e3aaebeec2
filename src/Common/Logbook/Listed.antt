-- ===== src/Common/Logbook/Listed.antt =====
-- The entries that the profiles are downloaded for are the ones that the logbook was joined from.
use libdc_swift.Prelude.{
  ℕ, zero, suc, ◌+◌, ◌-◌, ◌≤◌, ◌<◌, ◌≡◌, refl, sym, ap, ap₂, ◌∙◌, inl, inr, false, List, [], ◌∷◌,
  ◌++◌, append_assoc, append-nil, ltb, le→ltb, length, length-append, take, drop, take-append_self,
  All, arith, ◌==◌, Bool-cases, ne→==,
}
use libdc_swift.Common.RbStream.{Direction, forward, backward}
use libdc_swift.Common.RbStream.Unrolled.{ahead, behind, here, prior}
use libdc_swift.Common.RbStream.Reading.{stretch, passed}
use libdc_swift.Common.Profile.{entries_from}
use libdc_swift.Common.Logbook.Entries.{entries, is_known, newer, joined}

drop-append_self {ℓ} : {A : Type ℓ} (xs ys : List A) → drop (length xs) (xs ++ ys) ≡ ys
drop-append_self [] ys = refl
drop-append_self (x ∷ xs) ys = drop-append_self xs ys

abbrev pub HaveSize : ℕ → List (List ℕ) → Type 0
HaveSize size es = All (λ e. length e ≡ size) es

length-joined :
    (size : ℕ) (e : List ℕ) (es : List (List ℕ))
    → length e ≡ size
    → length (joined (e ∷ es)) ≡ length (joined es) + size
unfolding joined
length-joined size e es h = length-append (joined es) e ∙ ap (λ n. length (joined es) + n) h

entries_step :
    (fuel size n : ℕ) (logbook : List ℕ)
    → (n == 0) ≡ false
    → ltb n size ≡ false
    → entries_from (suc fuel) size n logbook
      ≡ take size (drop (n - size) logbook) ∷ entries_from fuel size (n - size) logbook
unfolding entries_from
entries_step fuel size n logbook some enough = rw (some, enough)

entries_from-joined :
    (fuel size : ℕ) (es : List (List ℕ)) (behind : List ℕ)
    → 0 < size
    → HaveSize size es
    → length (joined es) ≤ fuel
    → entries_from fuel size (length (joined es)) (joined es ++ behind) ≡ es
unfolding entries_from joined
entries_from-joined zero size [] behind pos sized le = refl
entries_from-joined zero size (e ∷ es) behind pos sized le =
    absurd (omega (arith, length-joined size e es sized.0))
entries_from-joined (suc fuel) size [] behind pos sized le = refl
entries_from-joined (suc fuel) size (e ∷ es) behind pos sized le =
    let n = length (joined (e ∷ es)) in
    let total = length-joined size e es sized.0 in
    let left : n - size ≡ length (joined es) = omega (arith, total) in
    let more : (n == 0) ≡ false = ne→== (omega (arith, total)) in
    let logbook = joined (e ∷ es) ++ behind in
    let tail = e ++ behind in
    let whole : logbook ≡ joined es ++ tail = append_assoc (joined es) e behind in
    let last : take size (drop (n - size) logbook) ≡ e =
      ap (λ k. take size (drop k logbook)) left
      ∙ (ap (λ x. take size (drop (length (joined es)) x)) whole
          ∙ (ap (take size) (drop-append_self (joined es) tail)
              ∙ (ap (λ k. take k tail) (sym sized.0) ∙ take-append_self e behind))) in
    let rest : entries_from fuel size (n - size) logbook ≡ es =
      ap (λ k. entries_from fuel size k logbook) left
      ∙ (ap (entries_from fuel size (length (joined es))) whole
          ∙ entries_from-joined fuel size es tail pos sized.1 (omega (arith, total))) in
    rw (entries_step fuel size n logbook more (le→ltb (omega (arith, total)))) (ap₂ ◌∷◌ last rest)

-- The entries of a ring have their size, and so have the new ones among them.
length-ahead : (mem : ℕ → ℕ) (lo hi p n : ℕ) → length (ahead mem lo hi p n) ≡ n
unfolding ahead
length-ahead mem lo hi p zero = refl
length-ahead mem lo hi p (suc n) = ap suc (length-ahead mem lo hi (here mem lo hi p + 1) n)

length-behind : (mem : ℕ → ℕ) (lo hi p n : ℕ) → length (behind mem lo hi p n) ≡ n
unfolding behind
length-behind mem lo hi p zero = refl
length-behind mem lo hi p (suc n) =
    let q = prior mem lo hi p in
    length-append (behind mem lo hi q n) (mem q ∷ []) ∙ omega (arith, length-behind mem lo hi q n)

length-stretch :
    (mem : ℕ → ℕ) (lo hi : ℕ) (d : Direction) (p n : ℕ) → length (stretch mem lo hi d p n) ≡ n
length-stretch mem lo hi forward p n = length-ahead mem lo hi p n
length-stretch mem lo hi backward p n = length-behind mem lo hi p n

entries-HaveSize :
    (mem : ℕ → ℕ) (lo hi : ℕ) (d : Direction) (size p k : ℕ)
    → HaveSize size (entries mem lo hi d size p k)
unfolding entries
entries-HaveSize mem lo hi d size p zero = tt
entries-HaveSize mem lo hi d size p (suc k) = (
  length-stretch mem lo hi d p size,
  entries-HaveSize mem lo hi d size (passed mem lo hi d p size) k,
)

newer-HaveSize :
    (size : ℕ) (fingerprint : List ℕ) (es : List (List ℕ))
    → HaveSize size es
    → HaveSize size (newer fingerprint es)
unfolding newer
newer-HaveSize size fingerprint [] h = tt
newer-HaveSize size fingerprint (e ∷ es) h = elim (Bool-cases (is_known fingerprint e)) [
  | inl known ↦ rw known tt
  | inr new ↦ rw new (h.0, newer-HaveSize size fingerprint es h.1)
]

-- The new entries of a ring, from the logbook that is joined from them.
pub entries_from-newer :
    (mem : ℕ → ℕ) (lo hi : ℕ) (d : Direction) (size p k : ℕ) (fingerprint : List ℕ)
    → 0 < size
    → let es = newer fingerprint (entries mem lo hi d size p k) in
      entries_from (length (joined es)) size (length (joined es)) (joined es) ≡ es
entries_from-newer mem lo hi d size p k fingerprint pos =
    let es = newer fingerprint (entries mem lo hi d size p k) in
    let n = length (joined es) in
    ap (entries_from n size n) (sym (append-nil (joined es)))
    ∙ entries_from-joined n size es [] pos
        (newer-HaveSize size fingerprint _ (entries-HaveSize mem lo hi d size p k)) (omega arith)
