-- ===== src/Common/Dives/Growth.antt =====
-- What an entry adds to the first pass over a logbook.
use libdc_swift.Prelude.{
  ℕ, ◌+◌, ◌≤◌, ◌<◌, ◌≡◌, refl, inl, inr, true, false, List, [], ◌∷◌, arith, Bool-cases, ne→==,
}
use libdc_swift.Atom2.Types.{u32}
use libdc_swift.Atom2.Layouts.Shape.{Layout}
use libdc_swift.Common.Ring.{ringbuffer_distance}
use libdc_swift.Common.Ring.Walk.{ringbuffer_distance-Reaches}
use libdc_swift.Common.Profile.{
  Entry, uninitialized, invalid, profile, entry_of, Scan, note_end, count_profile, count_bytes,
  scan_entry, scan_entries,
}
use libdc_swift.Common.Profile.Stretch.{
  IsRing, InRing, Started, count_profile-Started, entry_of-InRing,
}

module _ (l : Layout) (r : IsRing l) where
  -- The bytes of a dive with the gap behind it.
  abbrev pub total_of : ℕ → ℕ → ℕ → ℕ
  total_of b e previous = u32 (
      ringbuffer_distance b e true l.rb_profile_begin l.rb_profile_end
      + ringbuffer_distance e previous false l.rb_profile_begin l.rb_profile_end)

  pub total_of_positive :
      (b e previous : ℕ) → InRing l b → InRing l e → InRing l previous → 0 < total_of b e previous
  total_of_positive b e previous pb pe pp =
      let (_, le, some_bytes) =
        ringbuffer_distance-Reaches b e l.rb_profile_begin l.rb_profile_end true r.not_empty pb.0
          pb.1 pe.0 pe.1 in
      let (_, le', _) =
        ringbuffer_distance-Reaches e previous l.rb_profile_begin l.rb_profile_end false r.not_empty
          pe.0 pe.1 pp.0 pp.1 in
      ground (arith, r.small, some_bytes)

  pub note_end_unchanged : (e : ℕ) (sc : Scan) → Started l sc → note_end e sc ≡ sc
  unfolding note_end
  note_end_unchanged e sc h =
      rw (ne→== {a = sc.profile_end} {b = 0} (omega (arith, h.end_in_ring, r.not_at_zero))) refl

  -- The older entries only add, and leave the end alone.
  abbrev pub Grows : Scan → Scan → Type 0
  Grows sc sc' = (sc.profile_size ≤ sc'.profile_size) × (sc'.profile_end ≡ sc.profile_end)

  count_bytes-Grows : (b total : ℕ) (sc : Scan) → Started l sc → Grows sc (count_bytes b total sc).1
  unfolding count_bytes
  count_bytes-Grows b total sc h = ground (arith, h.accounted, r.small)

  Grows-trans : (a b c : Scan) → Grows a b → Grows b c → Grows a c
  Grows-trans a b c h k = omega arith

  pub Started-invalid : (sc : Scan) → Started l sc → Started l (record sc { bad_format = true })
  Started-invalid sc h = record {
    accounted = h.accounted;
    end_in_ring = h.end_in_ring;
    previous_in_ring = h.previous_in_ring;
    reaches = h.reaches;
    begins = h.begins;
  }

  pub scan_entry-Grows :
      (rest : Scan → Scan) (x : Entry) (sc : Scan)
      → ((b e : ℕ) → x ≡ profile b e → InRing l b × InRing l e)
      → ((t : Scan) → Started l t → Grows t (rest t))
      → Started l sc
      → Grows sc (scan_entry l rest x sc)
  unfolding scan_entry count_profile
  scan_entry-Grows rest uninitialized sc p k h = k sc h
  scan_entry-Grows rest invalid sc p k h =
      k (record sc { bad_format = true }) (Started-invalid sc h)
  scan_entry-Grows rest (profile b e) sc p k h =
      let (pb, pe) = p b e refl in
      let c = count_profile l b e sc in
      let grown = count_bytes-Grows b (total_of b e sc.previous) sc h in
      let started = count_profile-Started l b e sc r pb pe h in
      rw (note_end_unchanged e sc h) (elim (Bool-cases c.0) [
        | inl t ↦ rw t (Grows-trans sc c.1 (rest c.1) grown (k c.1 started))
        | inr f ↦ rw f grown
      ])

  abbrev pub in_ring :
      (bytes : List ℕ) (b e : ℕ) → entry_of l bytes ≡ profile b e → InRing l b × InRing l e
  in_ring bytes b e = entry_of-InRing l bytes

  pub scan_entries-Grows :
      (es : List (List ℕ)) (sc : Scan) → Started l sc → Grows sc (scan_entries l es sc)
  unfolding scan_entries
  scan_entries-Grows [] sc h = omega arith
  scan_entries-Grows (x ∷ es) sc h =
      scan_entry-Grows (scan_entries l es) (entry_of l x) sc (in_ring x) (scan_entries-Grows es) h
