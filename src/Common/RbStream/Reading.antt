-- ===== src/Common/RbStream/Reading.antt =====
-- What `dc_rbstream_read` hands out, against the ring unrolled.
use mathlib.Core.Path.{subst}
use libdc_swift.Prelude.{ℕ, ◌^◌, ◌≤◌, ◌≡◌, sym, ap, List, Error, Call}
use libdc_swift.Common.RbStream.{
  RbStream, Direction, forward, backward, rbstream_read, read_towards,
}
use libdc_swift.Common.RbStream.Unrolled.{back, behind, on, ahead}
use libdc_swift.Common.RbStream.Standing.{IsPacketed, Device, Delivers}
use libdc_swift.Common.RbStream.Opening.{Stands}
use libdc_swift.Common.RbStream.Backward.Rounds.{rbstream_read_backward-Delivers}
use libdc_swift.Common.RbStream.Forward.Rounds.{rbstream_read_forward-Delivers}

module _ (mem : ℕ → ℕ) (lo hi : ℕ) where
  -- The next `n` bytes from a place on in the unrolled ring, and where they end.
  abbrev pub stretch : Direction → ℕ → ℕ → List ℕ
  stretch forward p n = ahead mem lo hi p n
  stretch backward p n = behind mem lo hi p n

  abbrev pub passed : Direction → ℕ → ℕ → ℕ
  passed forward p n = on mem lo hi p n
  passed backward p n = back mem lo hi p n

module _ (mem : ℕ → ℕ) (page lo hi packet : ℕ) (g : IsPacketed page lo hi packet) {W : Type 0}
    (keeps : W → Type 0) (failing : Error → Type 0) (read : ℕ → ℕ → Call W (List ℕ))
    (device : Device keeps failing mem page lo hi packet read) where
  read_towards-Delivers :
      (d : Direction) (size : ℕ) (s : RbStream) (w : W) (p : ℕ)
      → size ≤ 2 ^ 31
      → Stands mem page lo hi packet d s p
      → keeps w
      → Delivers keeps failing
          (Stands mem page lo hi packet d)
          (stretch mem lo hi d p size)
          (passed mem lo hi d p size)
          (read_towards read d size (s, w))
  unfolding read_towards
  read_towards-Delivers forward size s w p small h k =
      rbstream_read_forward-Delivers mem page lo hi packet g keeps failing read device size s w p
        small h k
  read_towards-Delivers backward size s w p small h k =
      rbstream_read_backward-Delivers mem page lo hi packet g keeps failing read device size s w p
        small h k

  direction_of :
      (d : Direction) (s : RbStream) (p : ℕ) → Stands mem page lo hi packet d s p → s.direction ≡ d
  direction_of forward s p h = h.direction
  direction_of backward s p h = h.direction

  -- A read of `size` bytes from a stream that stands at a place of its ring returns the next
  -- `size` bytes of the unrolled ring, in the order of the memory where the ring does not wrap,
  -- however they fall on packets, pages and the ring's border, and the stream then stands where
  -- they end; or the read fails, and then a read of the device has failed with that error. It is
  -- assumed that a read of the device, at the start of a page from which a whole packet lies in
  -- the ring, returns the memory or fails; of other reads nothing is assumed. The ring ends below 2
  -- GiB, and the size is at most that.
  pub rbstream_read-Delivers :
      (d : Direction) (size : ℕ) (s : RbStream) (w : W) (p : ℕ)
      → size ≤ 2 ^ 31
      → Stands mem page lo hi packet d s p
      → keeps w
      → Delivers keeps failing
          (Stands mem page lo hi packet d)
          (stretch mem lo hi d p size)
          (passed mem lo hi d p size)
          (rbstream_read read size (s, w))
  unfolding rbstream_read
  rbstream_read-Delivers d size s w p small h k =
      subst
        (Delivers keeps failing (Stands mem page lo hi packet d) (stretch mem lo hi d p size)
          (passed mem lo hi d p size))
        (ap (λ x. read_towards read x size (s, w)) (sym (direction_of d s p h)))
        (read_towards-Delivers d size s w p small h k)
