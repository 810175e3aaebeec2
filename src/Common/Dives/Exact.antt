-- ===== src/Common/Dives/Exact.antt =====
-- How many bytes the second pass over a logbook reads, against what the first one has counted.
use libdc_swift.Prelude.{
  ℕ, ◌+◌, ◌-◌, ◌%◌, ◌≡◌, refl, sym, ap, ◌∙◌, true, List, [], ◌∷◌, arith, ◌==◌, if◌then◌else◌,
  Result, ok, err, data_format, overrun, Bool, false, Call, length,
}
use libdc_swift.Atom2.Layouts.Shape.{Layout}
use libdc_swift.Common.Profile.{
  Entry, uninitialized, invalid, profile, entry_of, Scan, note_end, scan_entry, scan_entries,
  entries_from, first_pass, runs_over,
}
use libdc_swift.Common.Profile.Stretch.{
  IsRing, InRing, Started, note_end-Started, Scanning, Scanning-start,
}
use libdc_swift.Common.Dives.{deliver, second_pass, download, device_profile}
use libdc_swift.Common.Dives.Growth.{
  note_end_unchanged, Grows, scan_entry-Grows, in_ring, scan_entries-Grows,
}
use libdc_swift.Common.Dives.Matching.{
  open_counted, read_counted, go_on, Matches, deliver-Matches, second_pass-Matches,
}

module _ (l : Layout) (r : IsRing l) (content : ℕ → ℕ → List ℕ) where
  -- Before an end is known the second pass starts at the end that the first one will find.
  abbrev Begins : (Scan → Scan) → (ℕ → ℕ → Result (Unit {0}) → Call ℕ (Unit {0})) → Scan → Type 0
  Begins older rest sc =
      (status : Result (Unit {0})) (w : ℕ)
      → (rest (older sc).profile_size (older sc).profile_end status w).1
        ≡ w + (older sc).profile_size

  Begins_of :
      (f : ℕ → ℕ → ℕ) (w k : ℕ) {size size' end end' : ℕ}
      → f (size' - k) end' + k ≡ w + size'
      → size' ≡ size
      → end' ≡ end
      → k ≡ 0
      → f size end ≡ w + size
  Begins_of f w k {size} {end = end} h e e' z =
      let none_yet : size - 0 ≡ size = omega arith in
      omega (arith, rw none_yet at (rw (e, e', z) at h))

  size_zero : (sc : Scan) → Scanning l sc → sc.profile_end ≡ 0 → sc.profile_size ≡ 0
  size_zero sc h z = ground (arith, h.stretch, r.not_at_zero)

  noted :
      (e : ℕ) (sc : Scan)
      → sc.profile_end ≡ 0
      → ((note_end e sc).profile_end ≡ e)
        × ((note_end e sc).previous ≡ e)
        × ((note_end e sc).profile_size ≡ sc.profile_size)
  unfolding note_end
  noted e sc z = rw z (refl, refl, refl)

  deliver-Begins :
      (older : Scan → Scan) (rest : ℕ → ℕ → Result (Unit {0}) → Call ℕ (Unit {0})) (entry : List ℕ)
      (x : Entry) (sc : Scan)
      → ((b e : ℕ) → x ≡ profile b e → InRing l b × InRing l e)
      → ((t : Scan) → Started l t → Grows l r t (older t))
      → ((t : Scan) → Started l t → Matches l r content older rest t)
      → ((t : Scan) → Scanning l t → t.profile_end ≡ 0 → Begins older rest t)
      → Scanning l sc
      → sc.profile_end ≡ 0
      → Begins
          (scan_entry l older x)
          (λ left previous status.
            deliver open_counted (read_counted content) go_on l rest entry x left previous status)
          sc
  unfolding scan_entry deliver
  deliver-Begins older rest entry uninitialized sc p g m k h z status w = k sc h z status w
  deliver-Begins older rest entry invalid sc p g m k h z status w =
      k (record sc { bad_format = true }) (record { accounted = h.accounted; stretch = h.stretch })
        z (err data_format) w
  deliver-Begins older rest entry (profile b e) sc p g m k h z status w =
      let sc' = note_end e sc in
      let (_, pe) = p b e refl in
      let started = note_end-Started l e sc r pe h in
      let (end_is, previous_is, size_is) = noted e sc z in
      let (_, end_kept) = scan_entry-Grows l r older (profile b e) sc' p g started in
      let again : scan_entry l older (profile b e) sc' ≡ scan_entry l older (profile b e) sc =
        rw (note_end_unchanged l r e sc' started) refl in
      Begins_of
        (λ left previous.
          (deliver open_counted (read_counted content) go_on l rest entry (profile b e) left
            previous status w).1)
        w sc'.profile_size
        (deliver-Matches l r content older rest entry (profile b e) sc' p g m started status w)
        (ap Scan.profile_size again)
        (previous_is ∙ (sym end_is ∙ (sym end_kept ∙ ap Scan.profile_end again)))
        (size_is ∙ size_zero sc h z)

  second_pass-Begins :
      (es : List (List ℕ)) (sc : Scan)
      → Scanning l sc
      → sc.profile_end ≡ 0
      → Begins (scan_entries l es) (second_pass open_counted (read_counted content) go_on l es) sc
  unfolding scan_entries second_pass
  second_pass-Begins [] sc h z status w = omega (arith, size_zero sc h z)
  second_pass-Begins (x ∷ es) sc h z status w =
      deliver-Begins (scan_entries l es)
        (second_pass open_counted (read_counted content) go_on l es) x (entry_of l x) sc
        (in_ring l r x) (scan_entries-Grows l r es) (second_pass-Matches l r content es)
        (second_pass-Begins es) h z status w

  skip_none :
      (over : Bool) (n w : ℕ) (status : Result (Unit {0})) (p : Result (Unit {0}) × ℕ)
      → over ≡ false
      → p.1 ≡ w + n
      → (if over then (err overrun, w) else if n == 0 then (status, w) else p).1 ≡ w + n
  skip_none over n w status p within h = ground arith

  whole-runs_over :
      (logbook : List ℕ) (sc : Scan)
      → length logbook % l.rb_logbook_entry_size ≡ 0
      → runs_over l logbook sc ≡ false
  unfolding runs_over
  whole-runs_over logbook sc whole = ground arith

  -- If the ring stream does not fail and the callback does not stop the download, the second pass
  -- over a logbook of whole entries reads exactly as many bytes as the first pass has counted,
  -- whatever bytes the entries have. That number is what the buffer was allocated for.
  pub device_profile-first_pass :
      (logbook : List ℕ) (w : ℕ)
      → length logbook % l.rb_logbook_entry_size ≡ 0
      → (device_profile open_counted (read_counted content) go_on true l logbook w).1
        ≡ w + (first_pass l logbook).profile_size
  unfolding device_profile download first_pass
  device_profile-first_pass logbook w whole =
      let sc = first_pass l logbook in
      let entries =
        entries_from (length logbook) l.rb_logbook_entry_size (length logbook) logbook in
      let status : Result (Unit {0}) = if sc.bad_format then err data_format else ok tt in
      skip_none (runs_over l logbook sc) sc.profile_size w status
        (second_pass open_counted (read_counted content) go_on l entries sc.profile_size
          sc.profile_end status w)
        (whole-runs_over logbook sc whole)
        (second_pass-Begins entries _ (Scanning-start l) refl status w)
