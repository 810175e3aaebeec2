-- ===== src/Common/RbStream/Tests.antt =====
-- A ring of 64 bytes, read in packets of 32.
use libdc_swift.Prelude.{
  ℕ, ◌+◌, ◌%◌, ◌≡◌, refl, ◌⊎◌, inr, Bool, true, false, List, [], ◌∷◌, ok, err, Call, slice, arith,
  invalid_args, no_memory,
}
use libdc_swift.Common.RbStream.{RbStream, forward, backward, placed, rbstream_new, rbstream_read}
use libdc_swift.Common.RbStream.Standing.{IsPacketed, Delivers}
use libdc_swift.Common.RbStream.Opening.{IsAcceptable, Stands, rbstream_new-Stands}
use libdc_swift.Common.RbStream.Reading.{stretch, passed, rbstream_read-Delivers}

-- Each byte is its address. The reads are counted.
abbrev memory : ℕ → ℕ
memory a = a % 256

abbrev read_memory : ℕ → ℕ → Call ℕ (List ℕ)
read_memory a n w = (ok (slice memory a n), w + 1)

-- A stream from 0x4A back, in the ring from 0x40 to 0x80.
abbrev stream : RbStream
stream = placed 16 32 0x40 0x80 0x4A backward

-- Over the border: the two bytes from 0x7E on, then the ten from 0x40 on. The second read takes the
-- rest of the packet in the cache.
first_read :
    (rbstream_read read_memory 12 (stream, 0)).0
    ≡ ok (0x7E ∷ 0x7F ∷ 0x40 ∷ 0x41 ∷ 0x42 ∷ 0x43 ∷ 0x44 ∷ 0x45 ∷ 0x46 ∷ 0x47 ∷ 0x48 ∷ 0x49 ∷ [])
unfolding rbstream_read placed
first_read = refl

second_read :
    (rbstream_read read_memory 2 (rbstream_read read_memory 12 (stream, 0)).1).0
    ≡ ok (0x7C ∷ 0x7D ∷ [])
unfolding rbstream_read placed
second_read = refl

onwards :
    (rbstream_read read_memory 4 (placed 16 32 0x40 0x80 0x7E forward, 0)).0
    ≡ ok (0x7E ∷ 0x7F ∷ 0x40 ∷ 0x41 ∷ [])
unfolding rbstream_read placed
onwards = refl

off_the_grid : rbstream_new true 16 32 0x48 0x80 0x50 backward ≡ err invalid_args
unfolding rbstream_new
off_the_grid = refl

packets : IsPacketed 16 0x40 0x80 32
packets = omega arith

rbstream_new-Stands_example :
    let r = rbstream_new true 16 32 0x40 0x80 0x4A backward in
    ((¬ IsAcceptable 16 32 0x40 0x80 0x4A) × (r ≡ err invalid_args))
    ⊎ (IsAcceptable 16 32 0x40 0x80 0x4A
        × (((◌≡◌ {A = Bool} true false) × (r ≡ err no_memory))
            ⊎ ((◌≡◌ {A = Bool} true true)
                × ((s : RbStream) × (r ≡ ok s)
                    × IsPacketed 16 0x40 0x80 32
                    × Stands memory 16 0x40 0x80 32 backward s 0x4A))))
rbstream_new-Stands_example =
    rbstream_new-Stands memory true 16 32 0x40 0x80 0x4A backward (omega arith)

stream-Stands : Stands memory 16 0x40 0x80 32 backward stream 0x4A
unfolding placed
stream-Stands = record {
  direction = refl;
  same_begin = refl;
  same_end = refl;
  same_packet = refl;
  place = refl;
  low = omega arith;
  high = omega arith;
  skipped = inr (omega arith);
  cached = refl;
  aligned = refl;
}

rbstream_read-Delivers_example :
    Delivers
      (λ (w : ℕ). Unit {0})
      (λ e. ⊥)
      (Stands memory 16 0x40 0x80 32 backward)
      (stretch memory 0x40 0x80 backward 0x4A 12)
      (passed memory 0x40 0x80 backward 0x4A 12)
      (rbstream_read read_memory 12 (stream, 0))
rbstream_read-Delivers_example =
    rbstream_read-Delivers memory 16 0x40 0x80 32 packets (λ (w : ℕ). Unit {0}) (λ e. ⊥) read_memory
      (λ a w k aligned lo hi. (refl, tt)) backward 12 stream 0 0x4A (omega arith) stream-Stands tt
