-- ===== src/Common/Dives/Reached.antt =====
-- How far round the ring the bytes go that are read for a dive.
use libdc_swift.Prelude.{ℕ, ◌+◌, ◌-◌, ◌≤◌, ◌<◌, ◌∙◌, true, false, List, arith}
use libdc_swift.Atom2.Layouts.Shape.{Layout}
use libdc_swift.Common.Ring.{ringbuffer_distance}
use libdc_swift.Common.Ring.Walk.{ringbuffer_distance-Reaches}
use libdc_swift.Common.RbStream.Unrolled.{on}
use libdc_swift.Common.RbStream.Unrolled.Turning.{Same, InBounds, on_on, on-Same, on_reaches}
use libdc_swift.Common.Dives.{dive_length}

pub dive_length-le : (l : Layout) (entry : List ℕ) (size : ℕ) → dive_length l entry size ≤ size
unfolding dive_length
dive_length-le l entry size = ground arith

-- The walk over a profile and the gap behind it.
module _ (mem : ℕ → ℕ) (lo hi : ℕ) (wide : lo < hi) where
  pub total_reached :
      (b e p : ℕ)
      → InBounds mem lo hi wide b
      → InBounds mem lo hi wide e
      → InBounds mem lo hi wide p
      → let size = ringbuffer_distance b e true lo hi in
        let gap = ringbuffer_distance e p false lo hi in
        (size ≤ hi - lo) × (gap ≤ hi - lo) × Same mem lo hi wide (on mem lo hi b (size + gap)) p
  total_reached b e p hb he hp =
      let size = ringbuffer_distance b e true lo hi in
      let gap = ringbuffer_distance e p false lo hi in
      let (r, le, _) = ringbuffer_distance-Reaches b e lo hi true wide hb.0 hb.1 he.0 he.1 in
      let (r', le', _) = ringbuffer_distance-Reaches e p lo hi false wide he.0 he.1 hp.0 hp.1 in
      let to_end = on_reaches mem lo hi wide b size e hb he le r in
      let to_previous = on_reaches mem lo hi wide e gap p he hp le' r' in
      (
        le,
        le',
        rw (← on_on mem lo hi wide b size gap)
            (on-Same mem lo hi wide (on mem lo hi b size) e gap to_end ∙ to_previous),
      )
