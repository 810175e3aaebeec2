-- ===== src/Common/Logbook.antt =====
-- The download of the logbook: `oceanic_common_device_logbook` of
-- libdivecomputer/src/oceanic_common.c.
pub mod Entries
pub mod Download
pub mod Outcomes
pub mod Listed
mod Tests
use libdc_swift.Prelude.{
  ℕ, zero, suc, ◌+◌, ◌-◌, ◌*◌, Bool, true, false, not, ◌||◌, List, [], ◌++◌, ltb, ◌==◌,
  if◌then◌else◌, take, Call, Result, ok, err, ◌>>=◌, return, fail, data_format, no_memory,
  out_of_fuel, overrun, text_eq,
}
use libdc_swift.Atom2.Types.{page_size}
use libdc_swift.Atom2.Layouts.Shape.{Layout}
use libdc_swift.Common.Ring.{ringbuffer_distance}
use libdc_swift.Common.RbStream.{
  RbStream, Direction, forward, backward, rbstream_new, rbstream_read,
}
use libdc_swift.Common.Profile.{is_uninitialized}
use libdc_swift.Common.Base.{Base}

pub is_outside : Layout → ℕ → Bool
is_outside l a = ltb a l.rb_logbook_begin || ltb l.rb_logbook_end a

-- The logbook's pointers, of which the one that is not read from may be wrong: then it becomes the
-- other one.
pub checked_begin : Layout → ℕ → ℕ → Result ℕ
unfolding is_outside
checked_begin l begin end =
    if is_outside l begin
    then if l.rb_logbook_direction == 0 then err data_format else ok end
    else ok begin

pub checked_end : Layout → ℕ → Result ℕ → Result (ℕ × ℕ)
unfolding is_outside
checked_end l end (err e) = err e
checked_end l end (ok begin) =
    if is_outside l end
    then if l.rb_logbook_direction == 0 then ok (begin, begin) else err data_format
    else ok (begin, end)

unfoldable pub checked_pointers : Layout → ℕ → ℕ → Result (ℕ × ℕ)
unfolding checked_begin checked_end
checked_pointers l begin end = checked_end l end (checked_begin l begin end)

pub direction_of : Layout → Direction
direction_of l = if l.rb_logbook_direction == 0 then forward else backward

-- The pointer that the entries are read from.
pub start_of : Layout → ℕ × ℕ → ℕ
start_of l (begin, end) = if l.rb_logbook_direction == 0 then begin else end

-- `read` is `dc_device_read` on the device.
module _ {W : Type 0} (read : ℕ → ℕ → Call W (List ℕ)) where
  -- What an entry that was read does: the fingerprint's ends the loop and is left out, and any but
  -- an uninitialized one is counted. `out` is the buffer from the entry before it on, `next` the
  -- loop with the buffer and the count.
  pub look_at :
      List ℕ
      → (List ℕ → ℕ → Call (RbStream × W) (List ℕ × ℕ))
      → List ℕ
      → ℕ
      → List ℕ
      → Call (RbStream × W) (List ℕ × ℕ)
  look_at fingerprint next out count entry =
      if is_uninitialized entry
      then next (entry ++ out) count
      else if text_eq entry fingerprint
      then return (out, count)
      else next (entry ++ out) (count + 1)

  -- The loop. `left` is `rb_logbook_size - nbytes`, the part of the buffer that is not yet written,
  -- `out` is the rest. An entry that does not fit is written over the buffer's start. An entry has
  -- at least one byte, so as many rounds as bytes are enough fuel.
  pub logbook_rounds : ℕ → ℕ → List ℕ → ℕ → List ℕ → ℕ → Call (RbStream × W) (List ℕ × ℕ)
  unfolding look_at
  logbook_rounds zero size fingerprint left out count =
      if ltb 0 left then fail out_of_fuel else return (out, count)
  logbook_rounds (suc fuel) size fingerprint left out count =
      let next = logbook_rounds fuel size fingerprint (left - size) in
      let round : Call (RbStream × W) (List ℕ × ℕ) = do
        entry ← rbstream_read read size
        look_at fingerprint next out count entry
      in if ltb 0 left then if ltb left size then fail overrun else round else return (out, count)

  -- What is left of the buffer, and the stream is freed.
  pub sliced : Result (List ℕ × ℕ) × (RbStream × W) → Result (List ℕ) × W
  sliced (ok (out, count), (s, w)) = (ok (if count == 0 then [] else out), w)
  sliced (err e, (s, w)) = (err e, w)

  pub read_entries : Base → ℕ → Result RbStream → Call W (List ℕ)
  unfolding logbook_rounds sliced
  read_entries d n (err e) w = (err e, w)
  read_entries d n (ok s) w =
      let size = d.layout.rb_logbook_entry_size in
      sliced (logbook_rounds n size (take size d.fingerprint) n [] 0 (s, w))

  -- With the pointers that were checked. `memory` and `stream_memory` say whether the buffer and
  -- the stream could be allocated.
  pub download_entries : Bool → Bool → Base → ℕ × ℕ → Call W (List ℕ)
  unfolding read_entries direction_of start_of ringbuffer_distance
  download_entries memory stream_memory d (begin, end) w =
      let l = d.layout in
      let n = ringbuffer_distance begin end true l.rb_logbook_begin l.rb_logbook_end in
      let stream =
        rbstream_new stream_memory page_size (page_size * d.multipage) l.rb_logbook_begin
          l.rb_logbook_end (start_of l (begin, end)) (direction_of l) in
      if n == 0
      then (ok [], w)
      else if memory
      then read_entries d n stream w
      else (err no_memory, w)

  pub with_pointers : Bool → Bool → Base → Result (ℕ × ℕ) → Call W (List ℕ)
  unfolding download_entries
  with_pointers memory stream_memory d (err e) w = (err e, w)
  with_pointers memory stream_memory d (ok pointers) w =
      download_entries memory stream_memory d pointers w

  -- `oceanic_common_device_logbook`, by the contents of the buffer.
  unfoldable pub device_logbook : Bool → Bool → Base → ℕ → ℕ → Call W (List ℕ)
  unfolding checked_pointers with_pointers
  device_logbook memory stream_memory d begin end =
      with_pointers memory stream_memory d (checked_pointers d.layout begin end)
