-- ===== src/Common/Dives.antt =====
-- The download of the profiles: the second pass of `oceanic_common_device_profile` of
-- libdivecomputer/src/oceanic_common.c, and the whole function.
pub mod Growth
pub mod Matching
pub mod Exact
pub mod Reached
pub mod Handed
mod Tests
use libdc_swift.Prelude.{
  ℕ, ◌+◌, ◌-◌, ◌*◌, ◌/◌, ◌%◌, Bool, true, false, List, [], ◌∷◌, ◌++◌, ltb, ◌==◌, if◌then◌else◌,
  length, take, Call, Result, ok, err, data_format, no_memory, overrun,
}
use libdc_swift.Atom2.Types.{u32, page_size}
use libdc_swift.Atom2.Packet.{array_uint16_le}
use libdc_swift.Atom2.Layouts.Shape.{Layout}
use libdc_swift.Common.Ring.{ringbuffer_distance}
use libdc_swift.Common.Profile.{
  Entry, uninitialized, invalid, profile, entry_of, entries_from, Scan, first_pass, runs_over,
}

-- The bytes of a profile without its padding. `(value_hi >> 1) | value_lo` is a sum.
pub dive_length : Layout → List ℕ → ℕ → ℕ
unfolding array_uint16_le
dive_length layout entry size =
    let value = array_uint16_le entry 12 in
    let npages = value / 0x2000 * 0x1000 + value % 0x1000 + 1 in
    let bytes = npages * page_size in
    if layout.highmem == 0 then size else if ltb bytes size then bytes else size

-- `read` is `dc_rbstream_read` on the stream of the profile ring, `callback` the dive callback;
-- `new_stream` is `dc_rbstream_new`, given the end of the profiles.
module _ {W : Type 0} (new_stream : ℕ → Call W (Unit {0})) (read : ℕ → Call W (List ℕ))
    (callback : List ℕ → W → Bool × W) where
  -- What follows a read: a failure ends the pass, and so does the callback. A dive is its logbook
  -- entry and its profile.
  pub hand_on :
      List ℕ
      → ℕ
      → (W → Result (Unit {0}) × W)
      → Result (Unit {0})
      → Result (List ℕ) × W
      → Result (Unit {0}) × W
  hand_on entry bytes rest status (err x, w) = (err x, w)
  hand_on entry bytes rest status (ok answer, w) =
      let (more, w') = callback (entry ++ take bytes answer) w in
      if more then rest w' else (status, w')

  -- `total` bytes are read, or they do not fit in what remains, and the pass ends. `rest` goes on
  -- with what remains then.
  pub read_dive :
      List ℕ → ℕ → ℕ → ℕ → (ℕ → W → Result (Unit {0}) × W) → Result (Unit {0}) → Call W (Unit {0})
  unfolding hand_on
  read_dive entry bytes total remaining rest status w =
      if ltb remaining total
      then (status, w)
      else hand_on entry bytes (rest (remaining - total)) status (read total w)

  -- One entry; `rest` is the pass over the older ones, at `remaining`, `previous` and `status`.
  pub deliver :
      Layout
      → (ℕ → ℕ → Result (Unit {0}) → Call W (Unit {0}))
      → List ℕ
      → Entry
      → ℕ
      → ℕ
      → Result (Unit {0})
      → Call W (Unit {0})
  unfolding ringbuffer_distance dive_length read_dive
  deliver layout rest entry uninitialized remaining previous status w =
      rest remaining previous status w
  deliver layout rest entry invalid remaining previous status w =
      rest remaining previous (err data_format) w
  deliver layout rest entry (profile begin end) remaining previous status w =
      let size = ringbuffer_distance begin end true layout.rb_profile_begin layout.rb_profile_end in
      let gap =
        ringbuffer_distance end previous false layout.rb_profile_begin layout.rb_profile_end in
      read_dive entry (dive_length layout entry size) (u32 (size + gap)) remaining
        (λ left. rest left begin status) status w

  pub second_pass : Layout → List (List ℕ) → ℕ → ℕ → Result (Unit {0}) → Call W (Unit {0})
  unfolding entry_of deliver
  second_pass layout [] remaining previous status w = (status, w)
  second_pass layout (e ∷ es) remaining previous status w =
      deliver layout (second_pass layout es) e (entry_of layout e) remaining previous status w

  -- What follows the first pass; `memory` says whether the buffer could be allocated.
  pub download :
      Bool
      → Layout
      → List (List ℕ)
      → Scan
      → Result (Unit {0})
      → Result (Unit {0}) × W
      → Result (Unit {0}) × W
  unfolding second_pass
  download memory layout entries sc status (err x, w) = (err x, w)
  download memory layout entries sc status (ok u, w) =
      if memory
      then second_pass layout entries sc.profile_size sc.profile_end status w
      else (err no_memory, w)

  -- `oceanic_common_device_profile`. Where its first pass leaves the buffer the model ends with the
  -- error `overrun`. Where the first pass ended by `break`, the second one does so at the same entry
  -- at the latest: nothing remains there.
  unfoldable pub device_profile : Bool → Layout → List ℕ → Call W (Unit {0})
  unfolding first_pass runs_over entries_from download
  device_profile memory layout logbook w =
      let sc = first_pass layout logbook in
      let entries =
        entries_from (length logbook) layout.rb_logbook_entry_size (length logbook) logbook in
      let status : Result (Unit {0}) = if sc.bad_format then err data_format else ok tt in
      if runs_over layout logbook sc
      then (err overrun, w)
      else if sc.profile_size == 0
      then (status, w)
      else download memory layout entries sc status (new_stream sc.profile_end w)
