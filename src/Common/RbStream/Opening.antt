-- ===== src/Common/RbStream/Opening.antt =====
-- The stream that `dc_rbstream_new` makes, and when it refuses.
use native.Mathlib.Nat.{div-add-mod, mod-lt, mod-eq_of_lt, mul_comm, mul-le-mul_right, mul-mod_left}
use libdc_swift.Prelude.{
  ℕ, ◌+◌, ◌-◌, ◌*◌, ◌/◌, ◌%◌, ◌^◌, ◌≤◌, ◌<◌, ◌≡◌, refl, ◌⊎◌, inl, inr, Bool, true, false, arith,
  if◌then◌else◌, ok, err, invalid_args, no_memory, Bool-cases, ltb,
}
use libdc_swift.Common.RbStream.{
  RbStream, Direction, forward, backward, ifloor, iceil, placed, rbstream_new,
}
use libdc_swift.Common.RbStream.Standing.{IsPacketed, IsBefore, IsAt}

-- `y / n * n` is the last multiple of `n` up to `y`.
floor_lem : (y n : ℕ) → 0 < n → (y / n * n ≤ y) × (y < y / n * n + n)
floor_lem y n h = omega (arith, div-add-mod y n, mul_comm n (y / n), mod-lt y h)

floor_last : (y n m : ℕ) → 0 < n → m % n ≡ 0 → m ≤ y → m ≤ y / n * n
floor_last y n m h aligned le = elim (Bool-cases (ltb (y / n) (m / n))) [
  | inl lt ↦ omega (
    arith,
    floor_lem y n h,
    div-add-mod m n,
    mul_comm n (m / n),
    mul-le-mul_right {m = y / n + 1} {n = m / n} n (ground arith),
  )
  | inr ge ↦ omega (
    arith,
    div-add-mod m n,
    mul_comm n (m / n),
    mul-le-mul_right {m = m / n} {n = y / n} n (ground arith),
  )
]

floor_below : (y n m : ℕ) → 0 < n → m % n ≡ 0 → y < m + n → y / n * n ≤ m
floor_below y n m h aligned lt = elim (Bool-cases (ltb (m / n) (y / n))) [
  | inl above ↦ absurd (
      omega (
        arith,
        floor_lem y n h,
        div-add-mod m n,
        mul_comm n (m / n),
        mul-le-mul_right {m = m / n + 1} {n = y / n} n (ground arith),
      ))
  | inr le ↦ omega (
    arith,
    div-add-mod m n,
    mul_comm n (m / n),
    mul-le-mul_right {m = y / n} {n = m / n} n (ground arith),
  )
]

-- The page grid around an address.
ifloor_aligned : (x n : ℕ) → ifloor x n % n ≡ 0
unfolding ifloor
ifloor_aligned x n = mul-mod_left (x / n) n

iceil_aligned : (x n : ℕ) → iceil x n % n ≡ 0
unfolding iceil
iceil_aligned x n = mul-mod_left _ n

ifloor_lem :
    (x n lo : ℕ)
    → 0 < n
    → lo % n ≡ 0
    → lo ≤ x
    → (lo ≤ ifloor x n) × (ifloor x n ≤ x) × (x < ifloor x n + n)
unfolding ifloor
ifloor_lem x n lo h aligned le = omega (arith, floor_last x n lo h aligned le, floor_lem x n h)

iceil_lem :
    (x n hi : ℕ)
    → 0 < n
    → hi % n ≡ 0
    → x ≤ hi
    → hi + n ≤ 2 ^ 32
    → (x ≤ iceil x n) × (iceil x n ≤ hi) × (iceil x n < x + n)
unfolding iceil
iceil_lem x n hi h aligned le small =
    let exact : (x + n - 1) % 2 ^ 32 ≡ x + n - 1 = omega arith in
    rw exact (
      omega
        (arith, floor_lem (x + n - 1) n h, floor_below (x + n - 1) n hi h aligned (omega arith)))

-- What `dc_rbstream_new` wants of its arguments.
pub record IsAcceptable (pagesize packetsize begin end address : ℕ) : Type 0 where
  pub some_page : 0 < pagesize
  pub some_packet : 0 < packetsize
  pub whole_pages : packetsize % pagesize ≡ 0
  pub begin_aligned : begin % pagesize ≡ 0
  pub end_aligned : end % pagesize ≡ 0
  pub not_reversed : begin ≤ end
  pub packet_fits : packetsize ≤ end - begin
  pub not_below : begin ≤ address
  pub not_above : address ≤ end

-- A stream of the direction that stands at a place.
abbrev pub Stands : (ℕ → ℕ) → ℕ → ℕ → ℕ → ℕ → Direction → RbStream → ℕ → Type 0
Stands mem page lo hi packet forward s p = IsAt mem page lo hi packet s p
Stands mem page lo hi packet backward s p = IsBefore mem page lo hi packet s p

page-le-packet : (page packet : ℕ) → 0 < packet → packet % page ≡ 0 → page ≤ packet
page-le-packet page packet h e = elim (Bool-cases (ltb packet page)) [
  | inr ge ↦ ground arith
  | inl lt ↦ absurd (ground (arith, mod-eq_of_lt {n = packet} {m = page} (ground arith)))
]

placed-Stands :
    (mem : ℕ → ℕ) (pagesize packetsize begin end address : ℕ) (d : Direction)
    → IsAcceptable pagesize packetsize begin end address
    → end ≤ 2 ^ 31
    → Stands mem pagesize begin end packetsize d
        (placed pagesize packetsize begin end address d)
        address
unfolding placed
placed-Stands mem page packet lo hi a forward v small =
    let le = page-le-packet page packet v.some_packet v.whole_pages in
    let b = ifloor_lem a page lo v.some_page v.begin_aligned v.not_below in
    let top : (a ≡ hi) → hi ≤ ifloor a page =
      λ e. (ifloor_lem a page hi v.some_page v.end_aligned (omega (arith, e))).0 in
    record {
      direction = refl;
      same_begin = refl;
      same_end = refl;
      same_packet = refl;
      place = omega arith;
      low = omega arith;
      high = omega (arith, v.not_above);
      skipped = elim (Bool-cases (ltb a hi)) [
        | inl lt ↦ inr (refl, ground arith, omega arith)
        | inr ge ↦ inl (omega (arith, top (ground (arith, v.not_above))))
      ];
      cached = refl;
      aligned = ifloor_aligned a page;
    }
placed-Stands mem page packet lo hi a backward v small =
    let le = page-le-packet page packet v.some_packet v.whole_pages in
    let b =
      iceil_lem a page hi v.some_page v.end_aligned v.not_above (omega (arith, v.packet_fits)) in
    let bottom : (a ≡ lo) → iceil a page ≤ lo = λ e.
      (iceil_lem a page lo v.some_page v.begin_aligned (omega (arith, e))
        (omega (arith, v.packet_fits))).1 in
    record {
      direction = refl;
      same_begin = refl;
      same_end = refl;
      same_packet = refl;
      place = omega arith;
      low = omega (arith, v.not_below);
      high = omega arith;
      skipped = elim (Bool-cases (ltb lo a)) [
        | inl lt ↦ inr (refl, ground arith, omega arith)
        | inr ge ↦ inl (omega (arith, bottom (ground (arith, v.not_below)), v.not_below))
      ];
      cached = refl;
      aligned = iceil_aligned a page;
    }

packeted :
    (page packet lo hi a : ℕ)
    → IsAcceptable page packet lo hi a
    → hi ≤ 2 ^ 31
    → IsPacketed page lo hi packet
packeted page packet lo hi a v small = record {
  not_empty = v.some_packet;
  fits = omega (arith, v.packet_fits, v.not_reversed);
  small = small;
  begin_aligned = v.begin_aligned;
  end_aligned = v.end_aligned;
  packet_aligned = v.whole_pages;
}

-- The outcomes of `dc_rbstream_new`.
accepted :
    (memory : Bool) (page packet lo hi a : ℕ) (d : Direction)
    → IsAcceptable page packet lo hi a
    → rbstream_new memory page packet lo hi a d
      ≡ (if memory then ok (placed page packet lo hi a d) else err no_memory)
unfolding rbstream_new
accepted memory page packet lo hi a d v = ground arith

refused :
    (memory : Bool) (page packet lo hi a : ℕ) (d : Direction)
    → (rbstream_new memory page packet lo hi a d ≡ err invalid_args)
      ⊎ IsAcceptable page packet lo hi a
unfolding rbstream_new
refused memory page packet lo hi a d = ground arith

-- `dc_rbstream_new` refuses its arguments exactly if they are not acceptable: a page or a packet of
-- no bytes, sizes or borders off the page grid, borders that are reversed, a packet that is larger
-- than the ring, or an address outside it. Otherwise it fails exactly if there is no memory, and
-- else the stream stands at the given address, wherever on a page that is: the byte that it hands
-- out next is the one at the address, or backwards the one before it. The ring ends below 2 GiB.
pub rbstream_new-Stands :
    (mem : ℕ → ℕ) (memory : Bool) (page packet lo hi address : ℕ) (d : Direction)
    → hi ≤ 2 ^ 31
    → let r = rbstream_new memory page packet lo hi address d in
      ((¬ IsAcceptable page packet lo hi address) × (r ≡ err invalid_args))
      ⊎ (IsAcceptable page packet lo hi address
          × (((memory ≡ false) × (r ≡ err no_memory))
              ⊎ ((memory ≡ true)
                  × ((s : RbStream) × (r ≡ ok s)
                      × IsPacketed page lo hi packet
                      × Stands mem page lo hi packet d s address))))
rbstream_new-Stands mem true page packet lo hi a d small =
    elim (refused true page packet lo hi a d) [
      | inl e ↦ inl ((λ v. absurd (cc (accepted true page packet lo hi a d v))), e)
      | inr v ↦ inr (
        v,
        inr (
          refl,
          (
            placed page packet lo hi a d,
            accepted true page packet lo hi a d v,
            packeted page packet lo hi a v small,
            placed-Stands mem page packet lo hi a d v small,
          ),
        ),
      )
    ]
rbstream_new-Stands mem false page packet lo hi a d small =
    elim (refused false page packet lo hi a d) [
      | inl e ↦ inl ((λ v. absurd (cc (accepted false page packet lo hi a d v))), e)
      | inr v ↦ inr (v, inl (refl, accepted false page packet lo hi a d v))
    ]
