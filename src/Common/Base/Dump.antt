-- ===== src/Common/Base/Dump.antt =====
-- The dump of the whole memory, and what a device is taken to do for its reads.
use libdc_swift.Prelude.{
  ℕ, zero, suc, ◌+◌, ◌-◌, ◌*◌, ◌%◌, ◌^◌, ◌≤◌, ◌<◌, ◌≡◌, refl, ap, ◌∙◌, inl, inr, true, List, [],
  ◌++◌, append_assoc, append-nil, ok, err, Error, Result, Call, bind, bind_assoc, arith, ltb,
  le→ltb, ltb→lt, if◌then◌else◌, Bool-cases, slice, slice-append,
}
use libdc_swift.Libdc.{DevInfo}
use libdc_swift.Atom2.Types.{u32, page_size}
use libdc_swift.Common.RbStream.Standing.{Serves, Device}
use libdc_swift.Common.Base.{Base, devinfo_of, dump_rounds, device_dump_read, device_dump}

module _ {W : Type 0} (keeps : W → Type 0) (failing : Error → Type 0) (mem : ℕ → ℕ)
    (memsize : ℕ) where
  -- The device returns what its memory holds between two pages, or fails.
  abbrev pub IsMemory : (ℕ → ℕ → Call W (List ℕ)) → Type 0
  IsMemory read =
      (a n : ℕ) (w : W)
      → keeps w
      → a % 16 ≡ 0
      → n % 16 ≡ 0
      → a + n ≤ memsize
      → Serves keeps failing (slice mem a n) (read a n w)

  -- Such a device serves each ring in its memory.
  pub IsMemory-Device :
      (read : ℕ → ℕ → Call W (List ℕ)) (lo hi packet : ℕ)
      → IsMemory read
      → packet % 16 ≡ 0
      → hi ≤ memsize
      → Device keeps failing mem 16 lo hi packet read
  IsMemory-Device read lo hi packet m whole within a w k aligned low high =
      m a packet w k aligned whole (omega arith)

  module _ (read : ℕ → ℕ → Call W (List ℕ)) (m : IsMemory read) (small : memsize ≤ 2 ^ 31) where
    pub read-Serves :
        (a n : ℕ) (w : W) (rest : List ℕ → Call W (List ℕ)) (bytes : List ℕ)
        → keeps w
        → a % 16 ≡ 0
        → n % 16 ≡ 0
        → a + n ≤ memsize
        → ((w : W) → keeps w → Serves keeps failing bytes (rest (slice mem a n) w))
        → Serves keeps failing bytes (bind (read a n w) rest)
    read-Serves a n w rest bytes k x y z go = after (read a n w) (m a n w k x y z)
      where
        after :
            (r : Result (List ℕ) × W)
            → Serves keeps failing (slice mem a n) r
            → Serves keeps failing bytes (bind r rest)
        after (ok answer, w) h = rw h.0 (go w h.1)
        after (err e, w) h = h

    block_lem :
        (blocksize left : ℕ)
        → blocksize % 16 ≡ 0
        → left % 16 ≡ 0
        → 0 < blocksize
        → 0 < left
        → let len = if ltb blocksize left then blocksize else left in
          (0 < len) × (len ≤ left) × (len % 16 ≡ 0)
    block_lem blocksize left a b c d = ground arith

    joined :
        (address len left : ℕ) (out : List ℕ)
        → len ≤ left
        → (out ++ slice mem address len) ++ slice mem (address + len) (left - len)
          ≡ out ++ slice mem address left
    joined address len left out le =
        let whole : len + (left - len) ≡ left = omega arith in
        append_assoc out (slice mem address len) (slice mem (address + len) (left - len))
        ∙ ap (λ r. out ++ r)
            (slice-append mem address len (address + len) (left - len) refl
              ∙ ap (slice mem address) whole)

    nothing_left :
        (address left : ℕ) (out : List ℕ) (w : W)
        → left ≤ 0
        → keeps w
        → Serves keeps failing (out ++ slice mem address left) (ok out, w)
    nothing_left address left out w none k =
        let zero_left : left ≡ 0 = omega arith in rw (zero_left, append-nil out) (refl, k)

    pub dump_rounds-Serves :
        (fuel address left blocksize : ℕ) (out : List ℕ) (w : W)
        → left ≤ fuel
        → address % 16 ≡ 0
        → left % 16 ≡ 0
        → blocksize % 16 ≡ 0
        → 0 < blocksize
        → address + left ≤ memsize
        → keeps w
        → Serves keeps failing
            (out ++ slice mem address left)
            (dump_rounds read fuel address left blocksize out w)
    unfolding dump_rounds
    dump_rounds-Serves zero address left blocksize out w f a b c pos inside k =
        rw (le→ltb {a = 0} {b = left} f) (nothing_left address left out w f k)
    dump_rounds-Serves (suc fuel) address left blocksize out w f a b c pos inside k =
        elim (Bool-cases (ltb 0 left)) [
          | inr end ↦ rw end (nothing_left address left out w (ground arith) k)
          | inl more ↦
              let len = if ltb blocksize left then blocksize else left in
              let (some, le, whole) = block_lem blocksize left c b pos (ltb→lt 0 left more) in
              let exact : u32 (address + len) ≡ address + len = omega arith in
              rw more (
                read-Serves address len w _ _ k a whole (omega arith) (λ w' k'.
                  rw (exact, ← joined address len left out le)
                    (dump_rounds-Serves fuel (address + len) (left - len) blocksize
                      (out ++ slice mem address len) w' (omega arith) (omega arith) (omega arith) c
                      pos (omega arith) k')))
        ]

module _ {W : Type 0} (keeps : W → Type 0) (failing : Error → Type 0) (mem : ℕ → ℕ)
    (read : ℕ → ℕ → Call W (List ℕ)) where
  -- The dump of a dive computer returns its whole memory, in whatever multiples of a page it is
  -- read, or fails with the error of a read of the device. It is assumed that the device's read of
  -- whole pages of its memory returns them or fails, that the page of the device information lies
  -- in the memory, that the buffer could be allocated and that the callbacks leave the device
  -- alone. The memory ends below 2 GiB. The loop ends within as many rounds as it reads bytes.
  pub device_dump-Serves :
      (emit_vendor : List ℕ → W → W) (emit_devinfo : DevInfo → W → W) (d : Base) (w : W)
      → IsMemory keeps failing mem d.layout.memsize read
      → ((v : List ℕ) (w : W) → keeps w → keeps (emit_vendor v w))
      → ((i : DevInfo) (w : W) → keeps w → keeps (emit_devinfo i w))
      → d.layout.memsize ≤ 2 ^ 31
      → d.layout.memsize % 16 ≡ 0
      → d.layout.cf_devinfo % 16 ≡ 0
      → d.layout.cf_devinfo + 16 ≤ d.layout.memsize
      → 0 < d.multipage
      → keeps w
      → Serves keeps failing
          (slice mem 0 d.layout.memsize)
          (device_dump read emit_vendor emit_devinfo true d w)
  unfolding device_dump
  device_dump-Serves emit_vendor emit_devinfo d w m v i small whole aligned inside pages k =
      let size = d.layout.memsize in
      let told =
        λ (id : List ℕ) (w : W). emit_devinfo (devinfo_of d id) (emit_vendor d.version w) in
      rw
        (bind_assoc (read d.layout.cf_devinfo 16 w) (λ id w. (ok tt, told id w))
          (λ u. device_dump_read read 0 size (page_size * d.multipage)))
        (read-Serves keeps failing mem size read m small d.layout.cf_devinfo 16 w _ _ k aligned refl
          inside
          (λ w' k'.
            dump_rounds-Serves keeps failing mem size read m small size 0 size
              (page_size * d.multipage) [] _ (omega arith) refl whole (omega arith) (omega arith)
              (omega arith) (i _ _ (v _ _ k'))))
