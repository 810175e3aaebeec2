-- ===== src/Common/Profile.antt =====
-- Which profiles belong to the dives of a logbook: `oceanic_common_device_get_profile` and the
-- first pass of `oceanic_common_device_profile` of libdivecomputer/src/oceanic_common.c.
pub mod Stretch
mod Tests
use libdc_swift.Prelude.{
  ℕ, zero, suc, ◌+◌, ◌-◌, ◌*◌, ◌/◌, ◌%◌, Bool, true, false, List, [], ◌∷◌, ltb, ◌==◌, ◌&&◌, ◌||◌,
  not, if◌then◌else◌, length, get_or, take, drop,
}
use libdc_swift.Atom2.Types.{u32, page_size}
use libdc_swift.Atom2.Packet.{array_uint16_le}
use libdc_swift.Atom2.Layouts.Shape.{Layout}
use libdc_swift.Common.Ring.{ringbuffer_distance}

-- `array_uint32_le`
pub array_uint32_le : List ℕ → ℕ → ℕ
unfolding array_uint16_le
array_uint32_le buf i = array_uint16_le buf i + array_uint16_le buf (i + 2) * 65536

-- `first` and `last` before they are converted.
pub raw_pointers : ℕ → List ℕ → ℕ × ℕ
unfolding array_uint16_le array_uint32_le
raw_pointers mode entry =
    if mode == 0
    then (array_uint16_le entry 5, array_uint16_le entry 6 / 16)
    else if mode == 1
    then (array_uint16_le entry 4, array_uint16_le entry 6)
    else if (mode == 2) || (mode == 3)
    then (array_uint16_le entry 16, array_uint16_le entry 18)
    else if mode == 4
    then (array_uint32_le entry 8, array_uint32_le entry 12)
    else (0, 0)

-- The bits of a page number, for a memory of `npages` pages.
pub page_mask : ℕ → ℕ → ℕ
page_mask npages page =
    if ltb 0x4000 npages
    then page % 0x8000
    else if ltb 0x2000 npages
    then page % 0x4000
    else if ltb 0x1000 npages
    then page % 0x2000
    else page % 0x1000

-- `oceanic_common_device_get_profile`, by the values of `*begin` and `*end`.
pub get_profile : Layout → List ℕ → ℕ × ℕ
unfolding raw_pointers page_mask
get_profile layout entry =
    let pagesize = if layout.highmem == 0 then page_size else 16 * page_size in
    let npages = (layout.memsize - layout.highmem) / pagesize in
    let raw = raw_pointers layout.pt_mode_logbook entry in
    let in_pages = ltb layout.pt_mode_logbook 3 in
    let first = if in_pages then page_mask npages raw.0 * pagesize else raw.0 in
    let last = if in_pages then page_mask npages raw.1 * pagesize else raw.1 in
    let footer = if ltb layout.pt_mode_logbook 4 then pagesize else 0 in
    (u32 (layout.highmem + first), u32 (layout.highmem + last + footer))

-- `array_isequal (…, 0xFF)`
unfoldable pub is_uninitialized : List ℕ → Bool
is_uninitialized [] = true
is_uninitialized (b ∷ bs) = (b == 0xFF) && is_uninitialized bs

-- What an entry of the logbook says: nothing, pointers out of the ring, or where its profile is.
pub data Entry : Type 0 where
  uninitialized invalid : Entry
  profile : ℕ → ℕ → Entry

pub is_in_ring : Layout → ℕ → Bool
is_in_ring layout a =
    if ltb a layout.rb_profile_begin || ltb layout.rb_profile_end a then false else true

-- The tests of an entry with the pointers `begin` and `end`.
pub checked_entry : Layout → Bool → ℕ × ℕ → Entry
unfolding is_in_ring
checked_entry layout true pointers = uninitialized
checked_entry layout false (begin, end) =
    if is_in_ring layout begin && is_in_ring layout end then profile begin end else invalid

unfoldable pub entry_of : Layout → List ℕ → Entry
unfolding is_uninitialized get_profile checked_entry
entry_of layout bytes = checked_entry layout (is_uninitialized bytes) (get_profile layout bytes)

-- The whole entries of a logbook whose first `n` bytes are left, the last one first. `n` is fuel
-- enough. Where fewer bytes than an entry are left, `entry -= layout->rb_logbook_entry_size` of the
-- source wraps, and what is read next is out of bounds: the list ends, and `runs_over` tells it.
unfoldable pub entries_from : ℕ → ℕ → ℕ → List ℕ → List (List ℕ)
entries_from zero size n logbook = []
entries_from (suc fuel) size n logbook =
    let rest = entries_from fuel size (n - size) logbook in
    if (n == 0) || ltb n size then [] else take size (drop (n - size) logbook) ∷ rest

-- The local variables of the first pass: `rb_profile_begin`, `rb_profile_end`, `rb_profile_size`,
-- `remaining`, `previous`, whether `status` is DC_STATUS_DATAFORMAT, and whether the loop was left
-- by `break`.
pub record Scan : Type 0 where
  pub profile_begin : ℕ
  pub profile_end : ℕ
  pub profile_size : ℕ
  pub remaining : ℕ
  pub previous : ℕ
  pub bad_format : Bool
  pub stopped : Bool

-- The most recent profile ends the stretch. INVALID is 0 here.
unfoldable pub note_end : ℕ → Scan → Scan
note_end end sc =
    if sc.profile_end == 0 then record sc { profile_end = end; previous = end } else sc

-- `total` bytes are counted, from `begin` on, or they do not fit (`false`), which ends the pass.
unfoldable pub count_bytes : ℕ → ℕ → Scan → Bool × Scan
count_bytes begin total sc =
    let counted : Scan = record sc {
      profile_begin = begin;
      profile_size = u32 (sc.profile_size + total);
      remaining = sc.remaining - total;
      previous = begin;
    } in
    if ltb sc.remaining total then (false, record sc { stopped = true }) else (true, counted)

-- A profile is counted with the gap behind it.
unfoldable pub count_profile : Layout → ℕ → ℕ → Scan → Bool × Scan
unfolding ringbuffer_distance count_bytes
count_profile layout begin end sc =
    let size = ringbuffer_distance begin end true layout.rb_profile_begin layout.rb_profile_end in
    let gap =
      ringbuffer_distance end sc.previous false layout.rb_profile_begin layout.rb_profile_end in
    count_bytes begin (u32 (size + gap)) sc

-- What an entry does to the pass; `rest` is the pass over the older entries.
unfoldable pub scan_entry : Layout → (Scan → Scan) → Entry → Scan → Scan
unfolding note_end count_profile
scan_entry layout rest uninitialized sc = rest sc
scan_entry layout rest invalid sc = rest (record sc { bad_format = true })
scan_entry layout rest (profile begin end) sc =
    let (fits, sc') = count_profile layout begin end (note_end end sc) in
    if fits then rest sc' else sc'

unfoldable pub scan_entries : Layout → List (List ℕ) → Scan → Scan
unfolding entry_of scan_entry
scan_entries layout [] sc = sc
scan_entries layout (e ∷ es) sc = scan_entry layout (scan_entries layout es) (entry_of layout e) sc

-- The first pass over a logbook.
unfoldable pub first_pass : Layout → List ℕ → Scan
unfolding entries_from scan_entries
first_pass layout logbook =
    scan_entries layout
      (entries_from (length logbook) layout.rb_logbook_entry_size (length logbook) logbook)
      (record {
        profile_begin = 0;
        profile_end = 0;
        profile_size = 0;
        remaining = layout.rb_profile_end - layout.rb_profile_begin;
        previous = 0;
        bad_format = false;
        stopped = false;
      })

-- The first pass over a logbook, after which it stands at `sc`, has left the buffer: it was not
-- ended by `break`, and the bytes are no whole number of entries.
unfoldable pub runs_over : Layout → List ℕ → Scan → Bool
runs_over layout logbook sc =
    not sc.stopped && not (length logbook % layout.rb_logbook_entry_size == 0)
