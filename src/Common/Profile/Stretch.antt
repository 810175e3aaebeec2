-- ===== src/Common/Profile/Stretch.antt =====
-- What the first pass over a logbook counts.
use libdc_swift.Prelude.{
  ℕ, ◌+◌, ◌-◌, ◌%◌, ◌^◌, ◌≤◌, ◌<◌, ◌≡◌, refl, ◌⊎◌, inl, inr, Bool, true, false, List, [], ◌∷◌,
  arith, Bool-cases, ltb, ◌==◌, length,
}
use libdc_swift.Atom2.Types.{u32}
use libdc_swift.Atom2.Layouts.Shape.{Layout}
use libdc_swift.Common.Ring.Walk.{Reaches, ringbuffer_distance-Reaches}
use libdc_swift.Common.Profile.{
  Entry, uninitialized, invalid, profile, is_in_ring, entry_of, checked_entry, is_uninitialized,
  get_profile, count_bytes, Scan, note_end, count_profile, scan_entry, scan_entries, entries_from,
  first_pass,
}

-- The profile ring of a layout is one.
pub record IsRing (l : Layout) : Type 0 where
  pub not_at_zero : 0 < l.rb_profile_begin
  pub not_empty : l.rb_profile_begin < l.rb_profile_end
  pub small : l.rb_profile_end ≤ 2 ^ 30

abbrev pub ring_size : Layout → ℕ
ring_size l = l.rb_profile_end - l.rb_profile_begin

abbrev pub InRing : Layout → ℕ → Type 0
InRing l a = (l.rb_profile_begin ≤ a) × (a ≤ l.rb_profile_end)

-- Two walks, one behind the other.
Reaches-trans :
    (n base a d b e c : ℕ)
    → 0 < n
    → (base ≤ a) × (a ≤ base + n)
    → (base ≤ c) × (c ≤ base + n)
    → d + e ≤ n
    → Reaches n a d b
    → Reaches n b e c
    → Reaches n a (d + e) c
Reaches-trans n base a d b e c p ha hc le h k = omega arith

module _ (l : Layout) where
  -- The pass so far: nothing is counted, or a stretch from `previous` to the end.
  pub record Scanning (sc : Scan) : Type 0 where
    pub accounted : sc.profile_size + sc.remaining ≡ ring_size l
    pub stretch :
        ((sc.profile_end ≡ 0) × (sc.profile_size ≡ 0))
        ⊎ (InRing l sc.profile_end
            × InRing l sc.previous
            × Reaches (ring_size l) sc.previous sc.profile_size sc.profile_end
            × ((sc.profile_size ≡ 0) ⊎ (sc.previous ≡ sc.profile_begin)))

  -- The bytes that are counted and those that are not make up the ring; and if any are counted,
  -- they are the stretch of the ring from the begin to the end that the pass has found.
  pub record IsStretch (sc : Scan) : Type 0 where
    pub accounted : sc.profile_size + sc.remaining ≡ ring_size l
    pub stretch :
        (sc.profile_size ≡ 0)
        ⊎ (InRing l sc.profile_begin
            × InRing l sc.profile_end
            × Reaches (ring_size l) sc.profile_begin sc.profile_size sc.profile_end)

  Scanning-IsStretch : (sc : Scan) → Scanning sc → IsStretch sc
  Scanning-IsStretch sc h = record { accounted = h.accounted; stretch = ground (arith, h.stretch) }

  checked_entry-InRing :
      (skip : Bool) (pointers : ℕ × ℕ) {b e : ℕ}
      → checked_entry l skip pointers ≡ profile b e
      → InRing l b × InRing l e
  unfolding checked_entry is_in_ring
  checked_entry-InRing true pointers h = absurd (cc)
  checked_entry-InRing false (x, y) h = ground arith

  -- The profile of an entry lies in the ring.
  pub entry_of-InRing :
      (bytes : List ℕ) {b e : ℕ} → entry_of l bytes ≡ profile b e → InRing l b × InRing l e
  unfolding entry_of
  entry_of-InRing bytes h = checked_entry-InRing (is_uninitialized bytes) (get_profile l bytes) h

  -- Once an end is known.
  pub record Started (sc : Scan) : Type 0 where
    pub accounted : sc.profile_size + sc.remaining ≡ ring_size l
    pub end_in_ring : InRing l sc.profile_end
    pub previous_in_ring : InRing l sc.previous
    pub reaches : Reaches (ring_size l) sc.previous sc.profile_size sc.profile_end
    pub begins : (sc.profile_size ≡ 0) ⊎ (sc.previous ≡ sc.profile_begin)

  pub Started-Scanning : (sc : Scan) → Started sc → Scanning sc
  Started-Scanning sc h = record {
    accounted = h.accounted;
    stretch = inr (h.end_in_ring, h.previous_in_ring, h.reaches, h.begins);
  }

  pub note_end-Started :
      (e : ℕ) (sc : Scan) → IsRing l → InRing l e → Scanning sc → Started (note_end e sc)
  unfolding note_end
  note_end-Started e sc r p h = elim (Bool-cases (sc.profile_end == 0)) [
    | inl t ↦ rw t (record {
      accounted = h.accounted;
      end_in_ring = p;
      previous_in_ring = p;
      reaches = ground (arith, h.stretch, r.not_at_zero);
      begins = ground (arith, h.stretch, r.not_at_zero);
    })
    | inr f ↦ rw f (record {
      accounted = h.accounted;
      end_in_ring = ground (arith, h.stretch);
      previous_in_ring = ground (arith, h.stretch);
      reaches = ground (arith, h.stretch);
      begins = ground (arith, h.stretch);
    })
  ]

  count_bytes-Started :
      (b e size gap : ℕ) (sc : Scan)
      → IsRing l
      → InRing l b
      → size ≤ ring_size l
      → gap ≤ ring_size l
      → Reaches (ring_size l) b size e
      → Reaches (ring_size l) e gap sc.previous
      → Started sc
      → Started (count_bytes b (u32 (size + gap)) sc).1
  unfolding count_bytes
  count_bytes-Started b e size gap sc r pb le le' walk walk' h =
      let total : u32 (size + gap) ≡ size + gap = omega (arith, r.small, r.not_empty) in
      elim (Bool-cases (ltb sc.remaining (u32 (size + gap)))) [
        | inl t ↦ rw t (record {
          accounted = h.accounted;
          end_in_ring = h.end_in_ring;
          previous_in_ring = h.previous_in_ring;
          reaches = h.reaches;
          begins = h.begins;
        })
        | inr f ↦
            let fits : size + gap ≤ sc.remaining = ground arith in
            let back =
              Reaches-trans (ring_size l) l.rb_profile_begin b size e gap sc.previous
                (omega (arith, r.not_empty)) (omega arith) (omega (arith, h.previous_in_ring))
                (omega (arith, h.accounted)) walk walk' in
            let stretch =
              Reaches-trans (ring_size l) l.rb_profile_begin b (size + gap) sc.previous
                sc.profile_size sc.profile_end (omega (arith, r.not_empty)) (omega arith)
                (omega (arith, h.end_in_ring)) (omega (arith, h.accounted)) back h.reaches in
            let count : u32 (sc.profile_size + u32 (size + gap)) ≡ size + gap + sc.profile_size =
              omega (arith, h.accounted, r.small) in
            rw f (record {
              accounted = omega (arith, h.accounted, r.small);
              end_in_ring = h.end_in_ring;
              previous_in_ring = pb;
              reaches = rw count stretch;
              begins = inr refl;
            })
      ]

  pub count_profile-Started :
      (b e : ℕ) (sc : Scan)
      → IsRing l
      → InRing l b
      → InRing l e
      → Started sc
      → Started (count_profile l b e sc).1
  unfolding count_profile
  count_profile-Started b e sc r pb pe h =
      let (walk, le, _) =
        ringbuffer_distance-Reaches b e l.rb_profile_begin l.rb_profile_end true r.not_empty pb.0
          pb.1 pe.0 pe.1 in
      let (walk', le', _) =
        ringbuffer_distance-Reaches e sc.previous l.rb_profile_begin l.rb_profile_end false
          r.not_empty pe.0 pe.1 h.previous_in_ring.0 h.previous_in_ring.1 in
      count_bytes-Started b e _ _ sc r pb le le' walk walk' h

  scan_entry-Scanning :
      (rest : Scan → Scan) (x : Entry) (sc : Scan)
      → IsRing l
      → ((b e : ℕ) → x ≡ profile b e → InRing l b × InRing l e)
      → ((t : Scan) → Scanning t → Scanning (rest t))
      → Scanning sc
      → Scanning (scan_entry l rest x sc)
  unfolding scan_entry
  scan_entry-Scanning rest uninitialized sc r p k h = k sc h
  scan_entry-Scanning rest invalid sc r p k h =
      k (record sc { bad_format = true }) (record { accounted = h.accounted; stretch = h.stretch })
  scan_entry-Scanning rest (profile b e) sc r p k h =
      let (pb, pe) = p b e refl in
      let counted = count_profile l b e (note_end e sc) in
      let started =
        count_profile-Started b e (note_end e sc) r pb pe (note_end-Started e sc r pe h) in
      let going = Started-Scanning counted.1 started in
      elim (Bool-cases counted.0) [ inl t ↦ rw t (k counted.1 going) | inr f ↦ rw f going ]

  scan_entries-Scanning :
      (es : List (List ℕ)) (sc : Scan) → IsRing l → Scanning sc → Scanning (scan_entries l es sc)
  unfolding scan_entries
  scan_entries-Scanning [] sc r h = h
  scan_entries-Scanning (x ∷ es) sc r h =
      scan_entry-Scanning (scan_entries l es) (entry_of l x) sc r (λ b e. entry_of-InRing x)
        (λ t. scan_entries-Scanning es t r) h

  -- Before the first entry.
  pub Scanning-start : Scanning (record {
    profile_begin = 0;
    profile_end = 0;
    profile_size = 0;
    remaining = ring_size l;
    previous = 0;
    bad_format = false;
    stopped = false;
  })
  Scanning-start = record { accounted = omega arith; stretch = inl (refl, refl) }

  -- For a logbook of whole entries, whatever bytes they have, the first pass counts at most the
  -- ring, what it counts and what remains make up the ring, and the bytes that it counts are one
  -- stretch of the ring, between the begin and the end that it found: walking from the begin over
  -- them leads to the end.
  pub first_pass-IsStretch :
      (logbook : List ℕ)
      → IsRing l
      → length logbook % l.rb_logbook_entry_size ≡ 0
      → IsStretch (first_pass l logbook)
  unfolding first_pass
  first_pass-IsStretch logbook r whole = Scanning-IsStretch (first_pass l logbook) (
      scan_entries-Scanning
        (entries_from (length logbook) l.rb_logbook_entry_size (length logbook) logbook) _ r
        Scanning-start)
