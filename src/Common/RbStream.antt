-- ===== src/Common/RbStream.antt =====
-- The stream of the bytes of a ring buffer: libdivecomputer/src/rbstream.c.
pub mod Unrolled
pub mod Standing
pub mod Opening
pub mod Backward
pub mod Forward
pub mod Reading
mod Tests
use libdc_swift.Prelude.{
  ℕ, zero, suc, ◌+◌, ◌-◌, ◌*◌, ◌/◌, ◌%◌, Bool, not, ◌&&◌, ◌||◌, List, [], ◌++◌, ltb, ◌==◌,
  if◌then◌else◌, length, take, drop, replicate, Call, Result, ok, err, ◌>>=◌, ◌>>◌, return,
  invalid_args, no_memory,
}
use libdc_swift.Atom2.Types.{u32}

-- `dc_rbstream_direction_t`
pub data Direction : Type 0 where
  forward backward : Direction

-- `dc_rbstream_t`, without the device that it reads from.
pub record RbStream : Type 0 where
  pub direction : Direction
  pub pagesize : ℕ
  pub packetsize : ℕ
  pub begin : ℕ
  pub end : ℕ
  pub address : ℕ
  pub offset : ℕ
  pub available : ℕ
  pub skip : ℕ
  pub cache : List ℕ

unfoldable pub ifloor : ℕ → ℕ → ℕ
ifloor x n = x / n * n

unfoldable pub iceil : ℕ → ℕ → ℕ
iceil x n = u32 (x + n - 1) / n * n

-- The stream before anything is read, at an address on the page grid.
unfoldable pub placed : ℕ → ℕ → ℕ → ℕ → ℕ → Direction → RbStream
unfolding ifloor iceil
placed pagesize packetsize begin end address forward = record {
  direction = forward;
  pagesize = pagesize;
  packetsize = packetsize;
  begin = begin;
  end = end;
  address = ifloor address pagesize;
  offset = 0;
  available = 0;
  skip = address - ifloor address pagesize;
  cache = replicate packetsize 0;
}
placed pagesize packetsize begin end address backward = record {
  direction = backward;
  pagesize = pagesize;
  packetsize = packetsize;
  begin = begin;
  end = end;
  address = iceil address pagesize;
  offset = 0;
  available = 0;
  skip = iceil address pagesize - address;
  cache = replicate packetsize 0;
}

-- `dc_rbstream_new`; `memory` says whether the stream could be allocated.
unfoldable pub rbstream_new : Bool → ℕ → ℕ → ℕ → ℕ → ℕ → Direction → Result RbStream
unfolding placed
rbstream_new memory pagesize packetsize begin end address direction =
    if (pagesize == 0) || (packetsize == 0)
    then err invalid_args
    else if not (packetsize % pagesize == 0)
    then err invalid_args
    else if not (begin % pagesize == 0) || not (end % pagesize == 0)
    then err invalid_args
    else if ltb end begin
    then err invalid_args
    else if ltb (end - begin) packetsize
    then err invalid_args
    else if ltb address begin || ltb end address
    then err invalid_args
    else if memory
    then ok (placed pagesize packetsize begin end address direction)
    else err no_memory

-- How many of the bytes at hand a round hands out.
pub chunk : RbStream → ℕ → ℕ → ℕ
chunk s size nbytes = if ltb size (u32 (nbytes + s.available)) then size - nbytes else s.available

-- The ring's wrap point, and the bytes of the next packet that belong to the ring.
pub wrap_backward : RbStream → RbStream
wrap_backward s = if s.address == s.begin then record s { address = s.end } else s

pub packet_backward : RbStream → ℕ
packet_backward s =
    if ltb s.address (u32 (s.begin + s.packetsize)) then s.address - s.begin else s.packetsize

pub wrap_forward : RbStream → RbStream
wrap_forward s = if s.address == s.end then record s { address = s.begin } else s

pub packet_forward : RbStream → ℕ
packet_forward s =
    if ltb s.end (u32 (s.address + s.packetsize)) then s.end - s.address else s.packetsize

-- The stream once a packet is in its cache.
pub load_backward : RbStream → ℕ → List ℕ → RbStream
load_backward s len answer = record s {
  cache = answer ++ drop (length answer) s.cache;
  address = s.address - len;
  available = len - s.skip;
  skip = 0;
}

pub load_forward : RbStream → ℕ → List ℕ → RbStream
load_forward s len answer = record s {
  cache = answer ++ drop (length answer) s.cache;
  address = u32 (s.address + len);
  offset = s.packetsize - len + s.skip;
  available = len - s.skip;
  skip = 0;
}

-- The bytes that a round hands out, and the stream after it.
pub hand_out_backward : RbStream → ℕ → List ℕ × RbStream
hand_out_backward s len =
    let left = s.available - len in (take len (drop left s.cache), record s { available = left })

pub hand_out_forward : RbStream → ℕ → List ℕ × RbStream
hand_out_forward s len = (
  take len (drop s.offset s.cache),
  record s { offset = s.offset + len; available = s.available - len },
)

-- `read` is `dc_device_read` on the stream's device.
module _ {W : Type 0} (read : ℕ → ℕ → Call W (List ℕ)) where
  -- What follows the read of a packet for a stream: `load` puts it into the cache.
  pub keep_packet :
      RbStream → (List ℕ → RbStream) → Result (List ℕ) × W → Result (Unit {0}) × (RbStream × W)
  keep_packet s load (ok answer, w) = (ok tt, (load answer, w))
  keep_packet s load (err e, w) = (err e, (s, w))

  -- An empty cache is filled.
  pub fill_backward : Call (RbStream × W) (Unit {0})
  unfolding wrap_backward packet_backward load_backward keep_packet
  fill_backward (s, w) =
      let s' = wrap_backward s in
      let len = packet_backward s' in
      let filled =
        keep_packet s' (load_backward s' len) (read (s'.address - len) s'.packetsize w) in
      if s.available == 0 then filled else (ok tt, (s, w))

  pub fill_forward : Call (RbStream × W) (Unit {0})
  unfolding wrap_forward packet_forward load_forward keep_packet
  fill_forward (s, w) =
      let s' = wrap_forward s in
      let len = packet_forward s' in
      let extra = s'.packetsize - len in
      let filled =
        keep_packet s' (load_forward s' len) (read (s'.address - extra) s'.packetsize w) in
      if s.available == 0 then filled else (ok tt, (s, w))

  -- The loops; `out` is what is in the caller's buffer. A round hands out at least one byte, so as
  -- many rounds as bytes are enough fuel.
  pub backward_rounds : ℕ → ℕ → ℕ → List ℕ → Call (RbStream × W) (List ℕ)
  unfolding chunk hand_out_backward fill_backward
  backward_rounds zero size nbytes out = return out
  backward_rounds (suc fuel) size nbytes out =
      let round : Call (RbStream × W) (List ℕ) = fill_backward >> (λ (s, w).
        let len = chunk s size nbytes in
        let (bytes, s') = hand_out_backward s len in
        backward_rounds fuel size (nbytes + len) (bytes ++ out) (s', w)) in
      if ltb nbytes size then round else return out

  pub forward_rounds : ℕ → ℕ → ℕ → List ℕ → Call (RbStream × W) (List ℕ)
  unfolding chunk hand_out_forward fill_forward
  forward_rounds zero size nbytes out = return out
  forward_rounds (suc fuel) size nbytes out =
      let round : Call (RbStream × W) (List ℕ) = fill_forward >> (λ (s, w).
        let len = chunk s size nbytes in
        let (bytes, s') = hand_out_forward s len in
        forward_rounds fuel size (nbytes + len) (out ++ bytes) (s', w)) in
      if ltb nbytes size then round else return out

  unfoldable pub rbstream_read_backward : ℕ → Call (RbStream × W) (List ℕ)
  unfolding backward_rounds
  rbstream_read_backward size = backward_rounds size size 0 []

  unfoldable pub rbstream_read_forward : ℕ → Call (RbStream × W) (List ℕ)
  unfolding forward_rounds
  rbstream_read_forward size = forward_rounds size size 0 []

  pub read_towards : Direction → ℕ → Call (RbStream × W) (List ℕ)
  unfolding rbstream_read_backward rbstream_read_forward
  read_towards forward size = rbstream_read_forward size
  read_towards backward size = rbstream_read_backward size

  -- `dc_rbstream_read`
  unfoldable pub rbstream_read : ℕ → Call (RbStream × W) (List ℕ)
  unfolding read_towards
  rbstream_read size (s, w) = read_towards s.direction size (s, w)
