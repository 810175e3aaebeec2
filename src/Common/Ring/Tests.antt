-- ===== src/Common/Ring/Tests.antt =====
-- Steps in a small ring.
use libdc_swift.Prelude.{◌≤◌, ◌<◌, ◌≡◌, ◌⊎◌, refl, false, arith}
use libdc_swift.Common.Ring.{
  ringbuffer_distance, ringbuffer_increment, ringbuffer_decrement, ringbuffer_normalize,
}
use libdc_swift.Common.Ring.Walk.{
  Reaches, ringbuffer_distance-Reaches, ringbuffer_decrement-ringbuffer_increment,
}

ringbuffer_distance-Reaches_example :
    Reaches 16 30 (ringbuffer_distance 30 20 false 16 32) 20
    × (ringbuffer_distance 30 20 false 16 32 ≤ 16)
    × ((false ≡ false) ⊎ (0 < ringbuffer_distance 30 20 false 16 32))
ringbuffer_distance-Reaches_example =
    ringbuffer_distance-Reaches 30 20 16 32 false (omega arith) (omega arith) (omega arith)
      (omega arith) (omega arith)

ringbuffer_decrement-ringbuffer_increment_example :
    ringbuffer_decrement (ringbuffer_increment 30 7 16 32) 7 16 32 ≡ 30
ringbuffer_decrement-ringbuffer_increment_example =
    ringbuffer_decrement-ringbuffer_increment 30 7 16 32 (omega arith) (omega arith) (omega arith)

normalized : ringbuffer_normalize 40 16 32 ≡ 24
unfolding ringbuffer_normalize
normalized = refl
