-- ===== src/Common/Dives/Handed.antt =====
-- The dives that the second pass over a logbook hands over, against the memory.
pub mod Download
use mathlib.Core.List.{Memᴰ}
use mathlib.Core.List.Memᴰ.{head, tail}
use libdc_swift.Prelude.{
  ℕ, zero, suc, ◌+◌, ◌-◌, ◌*◌, ◌%◌, ◌^◌, ◌≤◌, ◌<◌, ◌≡◌, refl, sym, ap, ◌∙◌, ◌⊎◌, inl, inr, Bool,
  true, false, List, [], ◌∷◌, ◌++◌, take, ok, err, Error, Result, Call, arith, ltb, if◌then◌else◌,
  Bool-cases, slice, data_format, length, ◌==◌,
}
use libdc_swift.Libdc.{DevInfo}
use libdc_swift.Atom2.Types.{u32, page_size}
use libdc_swift.Atom2.Layouts.Shape.{Layout}
use libdc_swift.Common.Ring.{ringbuffer_distance}
use libdc_swift.Common.Ring.Walk.{ringbuffer_distance-Reaches}
use libdc_swift.Common.RbStream.{RbStream, backward, rbstream_read}
use libdc_swift.Common.RbStream.Unrolled.{ahead, behind, back, on}
use libdc_swift.Common.RbStream.Unrolled.Turning.{
  Same, InBounds, on_on, on-Same, on-InBounds, back-InBounds, on_reaches, behind_reached,
  take-ahead,
}
use libdc_swift.Common.RbStream.Standing.{IsPacketed, IsBefore, Device, Delivers}
use libdc_swift.Common.RbStream.Opening.{rbstream_new-Stands}
use libdc_swift.Common.RbStream.Reading.{rbstream_read-Delivers}
use libdc_swift.Common.Profile.{
  Entry, uninitialized, invalid, profile, entry_of, Scan, first_pass, entries_from,
}
use libdc_swift.Common.Profile.Stretch.{IsRing, InRing, entry_of-InRing}
use libdc_swift.Common.Dives.{
  dive_length, hand_on, read_dive, deliver, second_pass, download, device_profile,
}
use libdc_swift.Common.Base.{Base}
use libdc_swift.Common.Foreach.{
  Allocations, no_stream, opened, open_profiles, call_back, profiles_of,
}
use libdc_swift.Common.Dives.Reached.{dive_length-le, total_reached}

-- A dive as it is handed over: one of the entries, and from the memory the bytes of its profile,
-- from its own begin pointer on round the ring.
pub record IsDive (mem : ℕ → ℕ) (l : Layout) (es : List (List ℕ)) (dive : List ℕ) : Type 0 where
  pub entry : List ℕ
  pub begin : ℕ
  pub end : ℕ
  pub of_logbook : Memᴰ entry es
  pub points_to : entry_of l entry ≡ profile begin end
  pub bytes :
      dive
      ≡ entry
        ++ ahead mem l.rb_profile_begin l.rb_profile_end begin (
            dive_length l entry
              (ringbuffer_distance begin end true l.rb_profile_begin l.rb_profile_end))

module _ {W : Type 0} (keeps : W → Type 0) (failing : Error → Type 0) (mem : ℕ → ℕ)
    (read : ℕ → ℕ → Call W (List ℕ)) (emit_vendor : List ℕ → W → W) (emit_devinfo : DevInfo → W → W)
    (callback : List ℕ → W → Bool × W) (l : Layout) (r : IsRing l) (es : List (List ℕ)) where
  abbrev lo : ℕ
  lo = l.rb_profile_begin

  abbrev hi : ℕ
  hi = l.rb_profile_end

  -- The callback keeps what is to be kept, as far as it is called with dives.
  abbrev pub Accepts : Type 0
  Accepts = (dive : List ℕ) (w : W) → keeps w → IsDive mem l es dive → keeps (callback dive w).1

  abbrev Kept : Result (Unit {0}) × (RbStream × W) → Type 0
  Kept p = keeps p.1.1

  -- The stream stands at the place `previous`.
  abbrev At : ℕ → RbStream → ℕ → Type 0
  At packet s previous =
      (p : ℕ) × IsBefore mem 16 lo hi packet s p
      × InBounds mem lo hi r.not_empty p
      × Same mem lo hi r.not_empty p previous

  -- The pass over the rest of the entries.
  abbrev Continues : ℕ → (ℕ → ℕ → Result (Unit {0}) → Call (RbStream × W) (Unit {0})) → Type 0
  Continues packet rest =
      (left previous : ℕ) (status : Result (Unit {0})) (s : RbStream) (w : W)
      → InRing l previous
      → At packet s previous
      → keeps w
      → Kept (rest left previous status (s, w))

  module _ (packet : ℕ) (g : IsPacketed 16 lo hi packet)
      (device : Device keeps failing mem 16 lo hi packet read) (calls : Accepts) where
    abbrev on_callback : List ℕ → RbStream × W → Bool × (RbStream × W)
    on_callback = call_back read emit_vendor emit_devinfo callback

    -- The stream after it has handed out `total` bytes.
    IsBefore-At :
        (s : RbStream) (p b total : ℕ)
        → IsBefore mem 16 lo hi packet s (back mem lo hi p total)
        → InBounds mem lo hi r.not_empty p
        → Same mem lo hi r.not_empty (back mem lo hi p total) b
        → At packet s b
    IsBefore-At s p b total h inside same =
        (back mem lo hi p total, h, back-InBounds mem lo hi r.not_empty p total inside, same)

    hand_on-Kept :
        (open_stream : ℕ → Call (RbStream × W) (Unit {0})) (entry : List ℕ)
        (len total b e p left : ℕ)
        (rest : ℕ → ℕ → Result (Unit {0}) → Call (RbStream × W) (Unit {0}))
        (status : Result (Unit {0})) (res : Result (List ℕ) × (RbStream × W))
        → Continues packet rest
        → InRing l b
        → InBounds mem lo hi r.not_empty p
        → Same mem lo hi r.not_empty (back mem lo hi p total) b
        → IsDive mem l es (entry ++ take len (behind mem lo hi p total))
        → Delivers keeps failing
            (IsBefore mem 16 lo hi packet)
            (behind mem lo hi p total)
            (back mem lo hi p total)
            res
        → Kept (
            hand_on open_stream
              (rbstream_read read)
              on_callback
              entry
              len
              (rest left b status)
              status
              res)
    unfolding hand_on call_back
    hand_on-Kept open_stream entry len total b e p left rest status (ok answer, (s, w)) go hb inside
          same dive (bytes, stands, k) =
        let accepted = calls _ w k dive in
        rw bytes (elim (Bool-cases (callback (entry ++ take len (behind mem lo hi p total)) w).0) [
          | inl more ↦
              rw more
                (go left b status s _ hb (IsBefore-At s p b total stands inside same) accepted)
          | inr stop ↦ rw stop accepted
        ])
    hand_on-Kept open_stream entry len total b e p left rest status (err x, (s, w)) go hb inside
          same dive (_, k) =
        k

    -- A dive that fits is read, and is one.
    read_dive-Kept :
        (open_stream : ℕ → Call (RbStream × W) (Unit {0})) (entry : List ℕ)
        (remaining previous b e : ℕ)
        (rest : ℕ → ℕ → Result (Unit {0}) → Call (RbStream × W) (Unit {0}))
        (status : Result (Unit {0})) (s : RbStream) (w : W)
        → Memᴰ entry es
        → entry_of l entry ≡ profile b e
        → Continues packet rest
        → InRing l previous
        → At packet s previous
        → keeps w
        → let size = ringbuffer_distance b e true lo hi in
          let gap = ringbuffer_distance e previous false lo hi in
          Kept (
            read_dive open_stream
              (rbstream_read read)
              on_callback
              entry
              (dive_length l entry size)
              (u32 (size + gap))
              remaining
              (λ left. rest left b status)
              status
              (s, w))
    unfolding read_dive
    read_dive-Kept open_stream entry remaining previous b e rest status s w member points go hp
          (p, stands, inside, same) k =
        let size = ringbuffer_distance b e true lo hi in
        let gap = ringbuffer_distance e previous false lo hi in
        let len = dive_length l entry size in
        let (hb, he) = entry_of-InRing l entry points in
        let (size_le, gap_le, reached) =
          total_reached mem lo hi r.not_empty b e previous hb he hp in
        let exact : u32 (size + gap) ≡ size + gap = omega (arith, r.small) in
        let (bytes, back_at) =
          behind_reached mem lo hi r.not_empty b (size + gap) p hb inside (reached ∙ sym same) in
        let part =
          ap (take len) bytes
          ∙ take-ahead mem lo hi r.not_empty len (size + gap) b
              (omega (arith, dive_length-le l entry size)) in
        rw exact (elim (Bool-cases (ltb remaining (size + gap))) [
          | inl short ↦ rw short k
          | inr fits ↦ rw fits (
              hand_on-Kept open_stream entry len (size + gap) b e p (remaining - (size + gap)) rest
                status (rbstream_read read (size + gap) (s, w)) go hb inside back_at
                (record {
                  entry = entry;
                  begin = b;
                  end = e;
                  of_logbook = member;
                  points_to = points;
                  bytes = ap (λ x. entry ++ x) part;
                })
                (rbstream_read-Delivers mem 16 lo hi packet g keeps failing read device backward
                  (size + gap) s w p (omega (arith, r.small)) stands k))
        ])

    deliver-Kept :
        (open_stream : ℕ → Call (RbStream × W) (Unit {0})) (entry : List ℕ) (x : Entry)
        (remaining previous : ℕ) (rest : ℕ → ℕ → Result (Unit {0}) → Call (RbStream × W) (Unit {0}))
        (status : Result (Unit {0})) (s : RbStream) (w : W)
        → Memᴰ entry es
        → entry_of l entry ≡ x
        → Continues packet rest
        → InRing l previous
        → At packet s previous
        → keeps w
        → Kept (
            deliver open_stream
              (rbstream_read read)
              on_callback
              l
              rest
              entry
              x
              remaining
              previous
              status
              (s, w))
    unfolding deliver
    deliver-Kept open_stream entry uninitialized remaining previous rest status s w member points go
          hp at k =
        go remaining previous status s w hp at k
    deliver-Kept open_stream entry invalid remaining previous rest status s w member points go hp at
          k =
        go remaining previous (err data_format) s w hp at k
    deliver-Kept open_stream entry (profile b e) remaining previous rest status s w member points go
          hp at k =
        read_dive-Kept open_stream entry remaining previous b e rest status s w member points go hp
          at k

    pub second_pass-Kept :
        (open_stream : ℕ → Call (RbStream × W) (Unit {0})) (left : List (List ℕ))
        → ((e : List ℕ) → Memᴰ e left → Memᴰ e es)
        → Continues packet (second_pass open_stream (rbstream_read read) on_callback l left)
    unfolding second_pass
    second_pass-Kept open_stream [] among remaining previous status s w hp at k = k
    second_pass-Kept open_stream (e ∷ left) among remaining previous status s w hp at k =
        deliver-Kept open_stream e (entry_of l e) remaining previous
          (second_pass open_stream (rbstream_read read) on_callback l left) status s w
          (among e (head refl)) refl (second_pass-Kept open_stream left (λ x m. among x (tail m)))
          hp at k
