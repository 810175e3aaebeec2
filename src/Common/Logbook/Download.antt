-- ===== src/Common/Logbook/Download.antt =====
-- What `oceanic_common_device_logbook` downloads.
use native.Mathlib.Nat.{div-add-mod, mod-lt, mul_comm}
use libdc_swift.Prelude.{
  ℕ, ◌+◌, ◌*◌, ◌/◌, ◌%◌, ◌^◌, ◌≤◌, ◌<◌, ◌≡◌, ◌≢◌, ◌∙◌, ◌⊎◌, inl, inr, true, false, List, [], ◌++◌,
  append-nil, take, ok, err, Error, Result, Call, arith, ltb, ◌==◌, if◌then◌else◌, overrun,
}
use libdc_swift.Atom2.Types.{page_size}
use libdc_swift.Atom2.Layouts.Shape.{Layout}
use libdc_swift.Common.Ring.{ringbuffer_distance}
use libdc_swift.Common.Ring.Walk.{ringbuffer_distance-Reaches}
use libdc_swift.Common.RbStream.{RbStream, Direction, rbstream_new}
use libdc_swift.Common.RbStream.Standing.{IsPacketed, Device}
use libdc_swift.Common.RbStream.Opening.{Stands, rbstream_new-Stands}
use libdc_swift.Common.Base.{Base}
use libdc_swift.Common.Logbook.{
  checked_pointers, direction_of, start_of, sliced, logbook_rounds, read_entries, download_entries,
  device_logbook,
}
use libdc_swift.Common.Logbook.Entries.{
  entries, has_known, Collects, newer, dives, joined, logbook_of, logbook_rounds-Collects,
}

-- The layout has a logbook that can be read in packets of `multipage` pages, below 2 GiB. The
-- source asserts that an entry fits in the fingerprint.
pub record IsLogbook (d : Base) : Type 0 where
  pub some_entry : 0 < d.layout.rb_logbook_entry_size
  pub entry_fits : d.layout.rb_logbook_entry_size ≤ 0x200
  pub some_packet : 0 < d.multipage
  pub begin_aligned : d.layout.rb_logbook_begin % 16 ≡ 0
  pub end_aligned : d.layout.rb_logbook_end % 16 ≡ 0
  pub packet_fits : d.layout.rb_logbook_begin + 16 * d.multipage ≤ d.layout.rb_logbook_end
  pub small : d.layout.rb_logbook_end ≤ 2 ^ 31

abbrev pub Inside : Layout → ℕ → Type 0
Inside l a = (l.rb_logbook_begin ≤ a) × (a ≤ l.rb_logbook_end)

-- The pointer that is read from is in the ring, and the other one is taken as the same if it is not.
abbrev pub Uses : Layout → ℕ → ℕ → ℕ × ℕ → Type 0
Uses l begin end (b, e) =
    ((l.rb_logbook_direction ≡ 0)
      × Inside l begin
      × (b ≡ begin)
      × ((Inside l end × (e ≡ end)) ⊎ ((¬ Inside l end) × (e ≡ begin))))
    ⊎ ((l.rb_logbook_direction ≢ 0)
        × Inside l end
        × (e ≡ end)
        × ((Inside l begin × (b ≡ begin)) ⊎ ((¬ Inside l begin) × (b ≡ end))))

checked_pointers-Uses :
    (l : Layout) (begin end b e : ℕ)
    → Uses l begin end (b, e)
    → (checked_pointers l begin end ≡ ok (b, e))
      × Inside l b
      × Inside l e
      × Inside l (start_of l (b, e))
unfolding checked_pointers start_of
checked_pointers-Uses l begin end b e (inl u) = ground arith
checked_pointers-Uses l begin end b e (inr u) = ground arith

module _ (mem : ℕ → ℕ) {W : Type 0} (keeps : W → Type 0) (failing : Error → Type 0)
    (read : ℕ → ℕ → Call W (List ℕ)) where
  -- The new entries of `es` were returned, or a read of the device has failed, or the loop has run
  -- over the start of its buffer, because `r` of its bytes remained.
  abbrev pub Downloads : ℕ → List (List ℕ) → List ℕ → Result (List ℕ) × W → Type 0
  Downloads r es fingerprint (ok bytes, w) =
      (bytes ≡ logbook_of fingerprint es) × ((has_known fingerprint es ≡ true) ⊎ (r ≡ 0)) × keeps w
  Downloads r es fingerprint (err e, w) =
      (failing e ⊎ ((e ≡ overrun) × (has_known fingerprint es ≡ false) × (0 < r))) × keeps w

  new_only :
      (n k : ℕ) (bytes joint : List ℕ)
      → bytes ≡ joint ++ []
      → n ≡ 0 + k
      → (if n == 0 then [] else bytes) ≡ (if ltb 0 k then joint else [])
  new_only n k bytes joint same count = ground (arith, same ∙ append-nil joint)

  sliced-Downloads :
      (page lo hi packet r size : ℕ) (g : IsPacketed page lo hi packet)
      (device : Device keeps failing mem page lo hi packet read) (x : Direction)
      (es : List (List ℕ)) (fingerprint : List ℕ) (res : Result (List ℕ × ℕ) × (RbStream × W))
      → Collects mem page lo hi packet g keeps failing read device x size fingerprint r es [] 0 res
      → Downloads r es fingerprint (sliced read res)
  unfolding sliced logbook_of
  sliced-Downloads page lo hi packet r size g device x es fingerprint (ok (bytes, n), (s, w)) h = (
    new_only n (dives (newer fingerprint es)) bytes (joined (newer fingerprint es)) h.0 h.1,
    h.2,
    h.3,
  )
  sliced-Downloads page lo hi packet r size g device x es fingerprint (err e, (s, w)) h = h

  module _ (d : Base) (g : IsLogbook d) where
    abbrev lo : ℕ
    lo = d.layout.rb_logbook_begin

    abbrev hi : ℕ
    hi = d.layout.rb_logbook_end

    abbrev size : ℕ
    size = d.layout.rb_logbook_entry_size

    abbrev fp : List ℕ
    fp = take size d.fingerprint

    stream_made :
        (start : ℕ)
        → Inside d.layout start
        → (s : RbStream) × (rbstream_new true page_size
              (page_size * d.multipage)
              lo
              hi
              start
              (direction_of d.layout)
            ≡ ok s)
          × IsPacketed page_size lo hi (page_size * d.multipage)
          × Stands mem page_size lo hi (page_size * d.multipage) (direction_of d.layout) s start
    stream_made start inside =
        elim (rbstream_new-Stands mem true page_size (page_size * d.multipage) lo hi start
          (direction_of d.layout) g.small) [
            | inl refused ↦ absurd (
                refused.0 (record {
                  some_page = omega arith;
                  some_packet = omega (arith, g.some_packet);
                  whole_pages = omega arith;
                  begin_aligned = g.begin_aligned;
                  end_aligned = g.end_aligned;
                  not_reversed = omega (arith, g.packet_fits);
                  packet_fits = omega (arith, g.packet_fits);
                  not_below = inside.0;
                  not_above = inside.1;
                }))
            | inr (v, inl failed) ↦ absurd (cc failed.0)
            | inr (v, inr made) ↦ made.1
          ]

    -- What is returned where the stream has been made.
    read_entries-Downloads :
        (n p : ℕ) (s : RbStream) (w : W)
        → Device keeps failing mem page_size lo hi (page_size * d.multipage) read
        → IsPacketed page_size lo hi (page_size * d.multipage)
        → Stands mem page_size lo hi (page_size * d.multipage) (direction_of d.layout) s p
        → keeps w
        → Downloads
            (n % size)
            (entries mem lo hi (direction_of d.layout) size p (n / size))
            fp
            (read_entries read d n (ok s) w)
    unfolding read_entries
    read_entries-Downloads n p s w device packeted stands k =
        let split : n ≡ n / size * size + n % size =
          omega (arith, div-add-mod n size, mul_comm size (n / size)) in
        let es = entries mem lo hi (direction_of d.layout) size p (n / size) in
        sliced-Downloads page_size lo hi (page_size * d.multipage) (n % size) size packeted device
          (direction_of d.layout) es fp (logbook_rounds read n size fp n [] 0 (s, w))
          (logbook_rounds-Collects mem page_size lo hi (page_size * d.multipage) packeted keeps
            failing read device (direction_of d.layout) size fp n (n / size) (n % size) n [] 0 p s w
            g.some_entry (omega (arith, g.entry_fits)) (mod-lt n g.some_entry) split (omega arith)
            stands k)

    -- The download of a logbook reads entries from the pointer at which it starts, backwards or
    -- onwards as the layout says, as many as lie between the pointers, up to the first that equals
    -- the fingerprint and is not uninitialized, and returns those before it, each in front of those
    -- read earlier; it returns nothing if all of them are uninitialized. How the entries fall on
    -- packets, pages and the border of the ring does not matter. The pointer at which it does not
    -- start is taken to be the other one if it is outside of the ring. The call fails if a read of
    -- the device fails, with that error; and if the bytes between the pointers are no whole number
    -- of entries and no entry equals the fingerprint, it writes over the start of its buffer. In all
    -- other cases it succeeds. It is assumed that the layout's logbook lies on the page grid and
    -- holds a packet, that the pointer at which it starts is in the ring, that the allocations
    -- succeed, and that a read of a packet of the ring at the start of a page returns the memory or
    -- fails.
    pub device_logbook-Downloads :
        (begin end b e : ℕ) (w : W)
        → Device keeps failing mem page_size lo hi (page_size * d.multipage) read
        → Uses d.layout begin end (b, e)
        → keeps w
        → let n = ringbuffer_distance b e true lo hi in
          Downloads
            (n % size)
            (entries mem lo hi (direction_of d.layout) size (start_of d.layout (b, e)) (n / size))
            fp
            (device_logbook read true true d begin end w)
    unfolding device_logbook download_entries
    device_logbook-Downloads begin end b e w device u k =
        let (checked, inside_b, inside_e, inside) =
          checked_pointers-Uses d.layout begin end b e u in
        let (s, made, packeted, stands) = stream_made (start_of d.layout (b, e)) inside in
        let n = ringbuffer_distance b e true lo hi in
        let (_, _, some) =
          ringbuffer_distance-Reaches b e lo hi true (omega (arith, g.packet_fits, g.some_packet))
            inside_b.0 inside_b.1 inside_e.0 inside_e.1 in
        let some_bytes : (n == 0) ≡ false = ground (arith, some) in
        rw (checked, some_bytes, made)
          (read_entries-Downloads n (start_of d.layout (b, e)) s w device packeted stands k)
