-- ===== src/Common/Match/Exclusive.antt =====
-- What a match says of the version string, and which patterns of the Atom 2 table exclude one
-- another.
use libdc_swift.Prelude.{
  ℕ, zero, suc, ◌+◌, ◌≤◌, ◌≡◌, refl, sym, inl, inr, ◌⊎◌, Bool, true, false, List, [], ◌∷◌, Option,
  none, some, leb, not, ◌==◌, ◌&&◌, ◌||◌, if◌then◌else◌, get_or, drop, All, arith, Bool-cases,
  Option-cases, text_eq, eq_of_text_eq, ==→eq, and_true, ◌*◌, ◌%◌, ◌^◌,
}
use libdc_swift.Atom2.Versions.{Version, versions}
use libdc_swift.Common.Match.{match_from, match_pattern, take_if, common_match}

-- Each of the first `n` bytes of the pattern is NUL or stands in the string.
abbrev pub Agrees : ℕ → List ℕ → List ℕ → Type 0
Agrees zero string pattern = Unit
Agrees (suc n) string pattern =
    ((get_or pattern 0 0 ≡ 0) ⊎ (get_or pattern 0 0 ≡ get_or string 0 0))
    × Agrees n (drop 1 string) (drop 1 pattern)

match_from-Agrees :
    (n : ℕ) (starts : Bool) (value count : ℕ) (string pattern : List ℕ) {firmware : ℕ}
    → match_from n starts value count string pattern ≡ some firmware
    → Agrees n string pattern
unfolding match_from
match_from-Agrees zero starts value count string pattern h = tt
match_from-Agrees (suc n) starts value count string pattern h =
    elim (Bool-cases (get_or pattern 0 0 == 0)) [
      | inl z ↦
          let count' = if starts then count + 1 else count in
          let value' = if count' == 1 then (value * 256 + get_or string 0 0) % 2 ^ 32 else value in
          (
            inl (==→eq z),
            match_from-Agrees n false value' count' (drop 1 string) (drop 1 pattern) (rw z at h),
          )
      | inr nz ↦ elim (Bool-cases (get_or pattern 0 0 == get_or string 0 0)) [
        | inl e ↦ (
          inr (==→eq e),
          match_from-Agrees n true value count (drop 1 string) (drop 1 pattern) (rw (nz, e) at h),
        )
        | inr ne ↦ absurd (cc (rw (nz, ne) at h))
      ]
    ]

-- The two patterns ask for different bytes at one place.
abbrev conflict : ℕ → List ℕ → List ℕ → Bool
conflict zero p q = false
conflict (suc n) p q =
    (not (get_or p 0 0 == 0) && (not (get_or q 0 0 == 0) && not (get_or p 0 0 == get_or q 0 0)))
    || conflict n (drop 1 p) (drop 1 q)

conflict-Agrees : (n : ℕ) (s p q : List ℕ) → conflict n p q ≡ true → Agrees n s p → Agrees n s q → ⊥
conflict-Agrees zero s p q h a b = cc
conflict-Agrees (suc n) s p q h a b =
    ground (arith, conflict-Agrees n (drop 1 s) (drop 1 p) (drop 1 q))

match_pattern-Agrees :
    (s p : List ℕ) {firmware : ℕ} → match_pattern s p ≡ some firmware → Agrees 16 s p
unfolding match_pattern
match_pattern-Agrees s p h = match_from-Agrees 16 true 0 0 s p h

-- Two patterns that are equal or in conflict.
abbrev exclusive : List ℕ → List ℕ → Bool
exclusive p q = conflict 16 p q || text_eq p q

abbrev exclusive_with : List ℕ → List Version → Bool
exclusive_with p [] = true
exclusive_with p (w ∷ ws) = exclusive p w.pattern_text && exclusive_with p ws

abbrev all_exclusive : List Version → List Version → Bool
all_exclusive [] ws = true
all_exclusive (v ∷ vs) ws = exclusive_with v.pattern_text ws && all_exclusive vs ws

-- The entry does not match the string, or it has the pattern `p`.
abbrev pub Unmatched : List ℕ → List ℕ → Version → Type 0
Unmatched s p w = (match_pattern s w.pattern_text ≡ none) ⊎ (w.pattern_text ≡ p)

exclusive-Unmatched :
    (s : List ℕ) (w v : Version) {firmware : ℕ}
    → match_pattern s v.pattern_text ≡ some firmware
    → exclusive v.pattern_text w.pattern_text ≡ true
    → Unmatched s v.pattern_text w
exclusive-Unmatched s w v h e = elim (Option-cases (match_pattern s w.pattern_text)) [
  | inl n ↦ inl n
  | inr (f, m) ↦ elim (Bool-cases (conflict 16 v.pattern_text w.pattern_text)) [
    | inl c ↦ absurd (
        conflict-Agrees 16 s v.pattern_text w.pattern_text c
          (match_pattern-Agrees s v.pattern_text h) (match_pattern-Agrees s w.pattern_text m))
    | inr c ↦ inr (sym (eq_of_text_eq v.pattern_text w.pattern_text (ground arith)))
  ]
]

exclusive_with-Unmatched :
    (s : List ℕ) (v : Version) (ws : List Version) {firmware : ℕ}
    → match_pattern s v.pattern_text ≡ some firmware
    → exclusive_with v.pattern_text ws ≡ true
    → All (Unmatched s v.pattern_text) ws
exclusive_with-Unmatched s v [] h e = tt
exclusive_with-Unmatched s v (w ∷ ws) h e = (
  exclusive-Unmatched s w v h (and_true _ _ e).0,
  exclusive_with-Unmatched s v ws h (and_true _ _ e).1,
)

-- What a match finds: an entry that matches, whose firmware is not above the extracted one, and
-- all other matching entries of the table have its pattern.
pub record IsMatch (s : List ℕ) (table : List Version) (v : Version) (firmware : ℕ) : Type 0 where
  pub matched : match_pattern s v.pattern_text ≡ some firmware
  pub agrees : Agrees 16 s v.pattern_text
  pub new_enough : v.firmware ≤ firmware
  pub only_one : All (Unmatched s v.pattern_text) table

head_match :
    (s : List ℕ) (v : Version) (o : Option ℕ) (rest : Option (Version × ℕ)) {x : Version}
    {firmware : ℕ}
    → take_if v o rest ≡ some (x, firmware)
    → (rest ≡ some (x, firmware)) ⊎ ((v ≡ x) × (o ≡ some firmware) × (v.firmware ≤ firmware))
unfolding take_if
head_match s v none rest h = inl h
head_match s v (some f) rest h = elim (Bool-cases (leb v.firmware f)) [
  | inl t ↦ inr (ground (arith, rw t at h))
  | inr n ↦ inl (rw n at h)
]

common_match-IsMatch :
    (s : List ℕ) (vs table : List Version) {v : Version} {firmware : ℕ}
    → all_exclusive vs table ≡ true
    → common_match s vs ≡ some (v, firmware)
    → IsMatch s table v firmware
unfolding common_match
common_match-IsMatch s [] table e h = absurd (cc)
common_match-IsMatch s (x ∷ vs) table {v} {firmware} e h =
    elim (head_match s x (match_pattern s x.pattern_text) (common_match s vs) h) [
      | inl r ↦ common_match-IsMatch s vs table (and_true _ (all_exclusive vs table) e).1 r
      | inr (same, m, new) ↦ rw (← same) (record {
        matched = m;
        agrees = match_pattern-Agrees s x.pattern_text m;
        new_enough = new;
        only_one = exclusive_with-Unmatched s x table m (and_true _ (all_exclusive vs table) e).0;
      })
    ]

-- The entry that is found for a version string of an Atom 2 dive computer agrees with the string at
-- each byte that it does not leave open, and the string's firmware is not below its own. No other
-- entry of the table matches the string, but those with the same pattern: the model that is found
-- depends on the order of the table only through their firmware.
pub versions-IsMatch :
    (s : List ℕ) {v : Version} {firmware : ℕ}
    → common_match s versions ≡ some (v, firmware)
    → IsMatch s versions v firmware
unfolding versions text_eq
versions-IsMatch s h = common_match-IsMatch s versions versions refl h
