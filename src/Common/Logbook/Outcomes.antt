-- ===== src/Common/Logbook/Outcomes.antt =====
-- What `oceanic_common_device_logbook` returns, whatever the pointers and the allocations are.
use libdc_swift.Prelude.{
  ℕ, ◌*◌, ◌/◌, ◌%◌, ◌≤◌, ◌≡◌, refl, ◌⊎◌, inl, inr, Bool, true, false, List, [], take, ok, err,
  Error, Result, Call, arith, data_format, no_memory, invalid_args, ◌^◌, ◌==◌, if◌then◌else◌,
  Bool-cases,
}
use libdc_swift.Atom2.Types.{page_size}
use libdc_swift.Atom2.Layouts.Shape.{Layout}
use libdc_swift.Common.Ring.{ringbuffer_distance}
use libdc_swift.Common.RbStream.{RbStream, Direction, rbstream_new}
use libdc_swift.Common.RbStream.Opening.{rbstream_new-Stands}
use libdc_swift.Common.RbStream.Standing.{Device}
use libdc_swift.Common.Base.{Base}
use libdc_swift.Common.Logbook.{
  is_outside, checked_pointers, direction_of, start_of, read_entries, download_entries,
  device_logbook,
}
use libdc_swift.Common.Logbook.Entries.{entries, logbook_of}
use libdc_swift.Common.Logbook.Download.{IsLogbook, Uses, Downloads, device_logbook-Downloads}

checked_pointers-cases :
    (l : Layout) (begin end : ℕ)
    → ((q : ℕ × ℕ) × Uses l begin end q × (checked_pointers l begin end ≡ ok q))
      ⊎ ((e : Error) × (checked_pointers l begin end ≡ err e))
unfolding checked_pointers
checked_pointers-cases l begin end = elim (Bool-cases (l.rb_logbook_direction == 0)) [
  | inl on ↦ elim (Bool-cases (is_outside l begin)) [
    | inl out ↦ inr (data_format, rw (out, on) refl)
    | inr in_ring ↦ elim (Bool-cases (is_outside l end)) [
      | inl out ↦ inl ((begin, begin), ground arith, rw (in_ring, out, on) refl)
      | inr both ↦ inl ((begin, end), ground arith, rw (in_ring, both) refl)
    ]
  ]
  | inr back ↦ elim (Bool-cases (is_outside l end)) [
    | inl out ↦ inr (data_format, ground arith)
    | inr in_ring ↦ elim (Bool-cases (is_outside l begin)) [
      | inl out ↦ inl ((end, end), ground arith, rw (out, back, in_ring) refl)
      | inr both ↦ inl ((begin, end), ground arith, rw (both, in_ring) refl)
    ]
  ]
]

-- The entries between two pointers in the ring of the logbook.
abbrev pub between : (ℕ → ℕ) → Base → ℕ × ℕ → List (List ℕ)
between mem d q =
    let l = d.layout in
    entries mem l.rb_logbook_begin l.rb_logbook_end (direction_of l) l.rb_logbook_entry_size
      (start_of l q)
      (ringbuffer_distance q.0 q.1 true l.rb_logbook_begin l.rb_logbook_end
        / l.rb_logbook_entry_size)

module _ (mem : ℕ → ℕ) {W : Type 0} (keeps : W → Type 0) (failing : Error → Type 0)
    (read : ℕ → ℕ → Call W (List ℕ)) (d : Base) (g : IsLogbook d)
    (device : Device keeps failing mem page_size d.layout.rb_logbook_begin d.layout.rb_logbook_end
      (page_size * d.multipage)
      read) where
  -- Nothing, or the new ones among the entries between the pointers, was returned.
  abbrev pub Fetched : ℕ → ℕ → Result (List ℕ) × W → Type 0
  Fetched begin end (ok bytes, w) =
      ((bytes ≡ [])
        ⊎ ((q : ℕ × ℕ) × Uses d.layout begin end q
            × (bytes
                ≡ logbook_of (take d.layout.rb_logbook_entry_size d.fingerprint)
                    (between mem d q))))
      × keeps w
  Fetched begin end (err e, w) = keeps w

  Downloads-Fetched :
      (begin end r : ℕ) (q : ℕ × ℕ) (p : Result (List ℕ) × W)
      → Uses d.layout begin end q
      → Downloads mem keeps failing read r
          (between mem d q)
          (take d.layout.rb_logbook_entry_size d.fingerprint)
          p
      → Fetched begin end p
  Downloads-Fetched begin end r q (ok bytes, w) u h = (inr (q, u, h.0), h.2)
  Downloads-Fetched begin end r q (err e, w) u h = h.1

  -- Without the buffer's bytes or the stream no entries are read.
  refused :
      (begin end n : ℕ) (memory : Bool) (r : Result RbStream) (w : W)
      → ((e : Error) × (r ≡ err e)) ⊎ (memory ≡ false)
      → keeps w
      → Fetched begin end (
          if n == 0
          then (ok [], w)
          else if memory
          then read_entries read d n r w
          else (err no_memory, w))
  unfolding read_entries
  refused begin end n memory r w none k = elim (Bool-cases (n == 0)) [
    | inl z ↦ rw z (inl refl, k)
    | inr some_bytes ↦ rw some_bytes (not_read memory none)
  ]
    where
      not_read :
          (memory : Bool)
          → ((e : Error) × (r ≡ err e)) ⊎ (memory ≡ false)
          → Fetched begin end (if memory then read_entries read d n r w else (err no_memory, w))
      not_read true (inl (e, failed)) = rw failed k
      not_read true (inr x) = absurd (cc)
      not_read false x = k

  no_stream :
      (page packet lo hi start : ℕ) (x : Direction)
      → hi ≤ 2 ^ 31
      → (e : Error) × (rbstream_new false page packet lo hi start x ≡ err e)
  no_stream page packet lo hi start x small =
      elim (rbstream_new-Stands mem false page packet lo hi start x small) [
        | inl invalid ↦ (invalid_args, invalid.1)
        | inr (v, inl failed) ↦ (no_memory, failed.1)
        | inr (v, inr made) ↦ absurd (cc made.0)
      ]

  -- On every path of the download.
  pub device_logbook-Fetched :
      (memory stream_memory : Bool) (begin end : ℕ) (w : W)
      → keeps w
      → Fetched begin end (device_logbook read memory stream_memory d begin end w)
  unfolding device_logbook download_entries
  device_logbook-Fetched memory stream_memory begin end w k =
      elim (checked_pointers-cases d.layout begin end) [
        | inr (e, wrong) ↦ rw wrong k
        | inl (q, u, checked) ↦ with_memory memory stream_memory q u checked
      ]
    where
      size : ℕ × ℕ → ℕ
      size q = ringbuffer_distance q.0 q.1 true d.layout.rb_logbook_begin d.layout.rb_logbook_end

      stream : Bool → ℕ × ℕ → Result RbStream
      stream x q =
          rbstream_new x page_size (page_size * d.multipage) d.layout.rb_logbook_begin
            d.layout.rb_logbook_end (start_of d.layout q) (direction_of d.layout)

      with_memory :
          (memory stream_memory : Bool) (q : ℕ × ℕ)
          → Uses d.layout begin end q
          → checked_pointers d.layout begin end ≡ ok q
          → Fetched begin end (device_logbook read memory stream_memory d begin end w)
      with_memory true true q u checked =
          Downloads-Fetched begin end (size q % d.layout.rb_logbook_entry_size) q
            (device_logbook read true true d begin end w) u
            (device_logbook-Downloads mem keeps failing read d g begin end q.0 q.1 w device u k)
      with_memory true false q u checked =
          let l = d.layout in
          let none =
            no_stream page_size (page_size * d.multipage) l.rb_logbook_begin l.rb_logbook_end
              (start_of l q) (direction_of l) g.small in
          rw checked (refused begin end (size q) true (stream false q) w (inl none) k)
      with_memory false x q u checked =
          rw checked (refused begin end (size q) false (stream x q) w (inr refl) k)
