-- ===== src/Common/Dives/Matching.antt =====
-- The second pass from where an end is known.
use libdc_swift.Prelude.{
  ℕ, ◌+◌, ◌-◌, ◌≤◌, ◌<◌, ◌≡◌, refl, inl, inr, Bool, true, List, [], ◌∷◌, arith, Bool-cases, ltb,
  if◌then◌else◌, Result, ok, err, data_format, Call, lt→ltb, le→ltb,
}
use libdc_swift.Atom2.Types.{u32}
use libdc_swift.Atom2.Layouts.Shape.{Layout}
use libdc_swift.Common.Ring.{ringbuffer_distance}
use libdc_swift.Common.Profile.{
  Entry, uninitialized, invalid, profile, entry_of, Scan, count_profile, count_bytes, scan_entry,
  scan_entries,
}
use libdc_swift.Common.Profile.Stretch.{IsRing, InRing, Started, count_profile-Started}
use libdc_swift.Common.Dives.{dive_length, hand_on, read_dive, deliver, second_pass}
use libdc_swift.Common.Dives.Growth.{
  total_of, total_of_positive, note_end_unchanged, Grows, Started-invalid, in_ring,
  scan_entries-Grows,
}

-- A ring stream that never fails, over a count of the bytes that were read, and a callback that
-- never stops.
abbrev pub open_counted : ℕ → Call ℕ (Unit {0})
open_counted end w = (ok tt, w)

abbrev pub read_counted : (ℕ → ℕ → List ℕ) → ℕ → Call ℕ (List ℕ)
read_counted content n w = (ok (content n w), w + n)

abbrev pub go_on : List ℕ → ℕ → Bool × ℕ
go_on dive w = (true, w)

module _ (l : Layout) (r : IsRing l) (content : ℕ → ℕ → List ℕ) where
  -- From `sc` on, the second pass `rest` reads what the first pass `older` adds to `sc`.
  abbrev pub Matches :
      (Scan → Scan) → (ℕ → ℕ → Result (Unit {0}) → Call ℕ (Unit {0})) → Scan → Type 0
  Matches older rest sc =
      (status : Result (Unit {0})) (w : ℕ)
      → (rest ((older sc).profile_size - sc.profile_size) sc.previous status w).1 + sc.profile_size
        ≡ w + (older sc).profile_size

  read_stops :
      (total bytes w size : ℕ) (entry : List ℕ) (next : ℕ → Call ℕ (Unit {0}))
      (status : Result (Unit {0}))
      → 0 < total
      → (read_dive open_counted
            (read_counted content)
            go_on
            entry
            bytes
            total
            (size - size)
            next
            status
            w).1
          + size
        ≡ w + size
  unfolding read_dive
  read_stops total bytes w size entry next status p =
      rw (lt→ltb (size - size) total (omega arith)) refl

  read_fits :
      (total bytes w size k after : ℕ) (entry : List ℕ) (next : ℕ → Call ℕ (Unit {0}))
      (status : Result (Unit {0}))
      → k ≡ size + total
      → k ≤ after
      → (next (after - k) (w + total)).1 + k ≡ w + total + after
      → (read_dive open_counted
            (read_counted content)
            go_on
            entry
            bytes
            total
            (after - size)
            next
            status
            w).1
          + size
        ≡ w + after
  unfolding read_dive hand_on
  read_fits total bytes w size k after entry next status same le h =
      let left : after - size - total ≡ after - k = omega arith in
      rw (le→ltb {a = after - size} {b = total} (omega arith), left) (omega (arith, h))

  read_dive-Matches :
      (older : Scan → Scan) (rest : ℕ → ℕ → Result (Unit {0}) → Call ℕ (Unit {0}))
      (b total bytes w : ℕ) (entry : List ℕ) (status : Result (Unit {0})) (sc : Scan)
      → 0 < total
      → Started l sc
      → Started l (count_bytes b total sc).1
      → ((t : Scan) → Started l t → Grows l r t (older t))
      → ((t : Scan) → Started l t → Matches older rest t)
      → let c = count_bytes b total sc in
        let after = if c.0 then older c.1 else c.1 in
        (read_dive open_counted
            (read_counted content)
            go_on
            entry
            bytes
            total
            (after.profile_size - sc.profile_size)
            (λ left. rest left b status)
            status
            w).1
          + sc.profile_size
        ≡ w + after.profile_size
  unfolding count_bytes
  read_dive-Matches older rest b total bytes w entry status sc p h started g m =
      elim (Bool-cases (ltb sc.remaining total)) [
        | inl t ↦
            rw t
              (read_stops total bytes w sc.profile_size entry (λ left. rest left b status) status p)
        | inr f ↦
            let counted : Scan = record sc {
              profile_begin = b;
              profile_size = u32 (sc.profile_size + total);
              remaining = sc.remaining - total;
              previous = b;
            } in
            let going : Started l counted = rw f at started in
            let same : u32 (sc.profile_size + total) ≡ sc.profile_size + total =
              ground (arith, h.accounted, r.small) in
            let read = m counted going status (w + total) in
            let more = g counted going in
            rw f (
              read_fits total bytes w sc.profile_size counted.profile_size
                (older counted).profile_size entry (λ left. rest left b status) status same more.0
                read)
      ]

  pub deliver-Matches :
      (older : Scan → Scan) (rest : ℕ → ℕ → Result (Unit {0}) → Call ℕ (Unit {0})) (entry : List ℕ)
      (x : Entry) (sc : Scan)
      → ((b e : ℕ) → x ≡ profile b e → InRing l b × InRing l e)
      → ((t : Scan) → Started l t → Grows l r t (older t))
      → ((t : Scan) → Started l t → Matches older rest t)
      → Started l sc
      → Matches
          (scan_entry l older x)
          (λ left previous status.
            deliver open_counted (read_counted content) go_on l rest entry x left previous status)
          sc
  unfolding scan_entry count_profile deliver
  deliver-Matches older rest entry uninitialized sc p g m h status w = m sc h status w
  deliver-Matches older rest entry invalid sc p g m h status w =
      m (record sc { bad_format = true }) (Started-invalid l r sc h) (err data_format) w
  deliver-Matches older rest entry (profile b e) sc p g m h status w =
      let (pb, pe) = p b e refl in
      rw (note_end_unchanged l r e sc h) (
        read_dive-Matches older rest b (total_of l r b e sc.previous)
          (dive_length l entry (ringbuffer_distance b e true l.rb_profile_begin l.rb_profile_end)) w
          entry status sc (total_of_positive l r b e sc.previous pb pe h.previous_in_ring) h
          (count_profile-Started l b e sc r pb pe h) g m)

  pub second_pass-Matches :
      (es : List (List ℕ)) (sc : Scan)
      → Started l sc
      → Matches (scan_entries l es) (second_pass open_counted (read_counted content) go_on l es) sc
  unfolding scan_entries second_pass
  second_pass-Matches [] sc h status w = refl
  second_pass-Matches (x ∷ es) sc h status w =
      deliver-Matches (scan_entries l es)
        (second_pass open_counted (read_counted content) go_on l es) x (entry_of l x) sc
        (in_ring l r x) (scan_entries-Grows l r es) (second_pass-Matches es) h status w
