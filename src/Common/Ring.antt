-- ===== src/Common/Ring.antt =====
-- The arithmetic of a ring buffer between two addresses: libdivecomputer/src/ringbuffer.c.
pub mod Walk
mod Tests
use libdc_swift.Prelude.{ℕ, ◌+◌, ◌-◌, ◌%◌, ◌^◌, Bool, true, false, ltb, ◌==◌, if◌then◌else◌}

-- `modulo` and `distance` for a ring of `n` bytes. An unsigned int wraps at 2 ^ 32.
pub modulo : ℕ → ℕ → ℕ → ℕ
modulo x n d =
    let m = (d - x) % n in (if ltb x d then (if m == 0 then 0 else n - m) else (x - d) % n) + d

-- DC_RINGBUFFER_EMPTY is `false`, DC_RINGBUFFER_FULL is `true`.
pub distance : ℕ → ℕ → ℕ → Bool → ℕ
distance a b n full =
    let m = (a - b) % n in
    let result = if ltb b a then (if m == 0 then 0 else n - m) else (b - a) % n in
    if result == 0 then (if full then n else 0) else result

pub ringbuffer_normalize : ℕ → ℕ → ℕ → ℕ
unfolding modulo
ringbuffer_normalize a begin end = modulo a (end - begin) begin

unfoldable pub ringbuffer_distance : ℕ → ℕ → Bool → ℕ → ℕ → ℕ
unfolding distance
ringbuffer_distance a b full begin end = distance a b (end - begin) full

pub ringbuffer_increment : ℕ → ℕ → ℕ → ℕ → ℕ
unfolding modulo
ringbuffer_increment a delta begin end =
    let n = end - begin in modulo ((a + delta % n) % 2 ^ 32) n begin

pub ringbuffer_decrement : ℕ → ℕ → ℕ → ℕ → ℕ
unfolding modulo
ringbuffer_decrement a delta begin end =
    let n = end - begin in modulo ((a + n - delta % n) % 2 ^ 32) n begin
