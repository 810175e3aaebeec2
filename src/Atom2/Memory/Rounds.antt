-- ===== src/Atom2/Memory/Rounds.antt =====
-- The arithmetic of the rounds of `oceanic_atom2_device_read`: modes, pages and lengths.
use native.Mathlib.Nat.{div-add-mod, mul_comm}
use libdc_swift.Prelude.{ℕ, ◌+◌, ◌-◌, ◌*◌, ◌/◌, ◌%◌, ◌^◌, ◌≤◌, ◌<◌, ◌≡◌, ◌≢◌, ◌⊎◌, inl, inr, arith}
use libdc_swift.Atom2.Memory.{Mode, switch_mode, page_of, round_length}
use libdc_swift.Atom2.Memory.Cache.{Geometry, high_mode, IsUsed, page_start}

-- What the driver relies on: below the high memory pages are counted from address 0; the high
-- memory starts on a page boundary; no address of the memory wraps.
pub record IsValid (g : Geometry) : Type 0 where
  pub low_at_zero : g.low.highmem ≡ 0
  pub page_positive : 0 < g.low.pagesize
  pub page_small : g.low.pagesize ≤ 256
  pub top_aligned : g.top % 256 ≡ 0
  pub memory_small : g.memsize ≤ 2 ^ 31

-- The mode at an address: the high one exactly from `top` on.
abbrev pub Fits : Geometry → ℕ → Mode → Type 0
Fits g address m =
    ((m ≡ g.low) × ((g.top ≡ 0) ⊎ (address < g.top)))
    ⊎ ((m ≡ high_mode g.top) × (g.top ≢ 0) × (g.top ≤ address))

pub Fits-IsUsed : (g : Geometry) (address : ℕ) (m : Mode) → Fits g address m → IsUsed g m
Fits-IsUsed g address m (inl h) = inl h.0
Fits-IsUsed g address m (inr h) = inr (h.0, h.1)

-- Before a round the mode may still be the low one.
abbrev pub Before : Geometry → ℕ → Mode → Type 0
Before g address m = (m ≡ g.low) ⊎ ((m ≡ high_mode g.top) × (g.top ≢ 0) × (g.top ≤ address))

pub switch_mode-Fits :
    (g : Geometry) (address : ℕ) (m : Mode)
    → IsValid g
    → Before g address m
    → Fits g address (switch_mode g.top address m)
unfolding switch_mode
switch_mode-Fits g address m v (inl e) = ground arith
switch_mode-Fits g address m v (inr h) = ground arith

pub le-mul : (a n : ℕ) → 0 < n → a ≤ a * n
le-mul a n p = grind arith

-- Where the page of an address starts, and how far into it the address is.
pub page_of_lem :
    (g : Geometry) (address : ℕ) (m : Mode)
    → IsValid g
    → Fits g address m
    → (0 < m.pagesize)
      × (m.pagesize ≤ 256)
      × (page_start m (page_of m address) + address % m.pagesize ≡ address)
unfolding page_of
page_of_lem g address m v (inl h) =
    let zero_less : address - 0 ≡ address = omega arith in
    rw h.0 (
      v.page_positive,
      v.page_small,
      rw (v.low_at_zero, zero_less)
          (omega (
            arith,
            div-add-mod address g.low.pagesize,
            mul_comm g.low.pagesize (address / g.low.pagesize),
          )),
    )
page_of_lem g address m v (inr h) = rw h.0 (omega arith)

-- A round copies at least one byte, stays in the page, and does not pass the end.
pub round_length_lem :
    (m : Mode) (size address nbytes : ℕ)
    → 0 < m.pagesize
    → m.pagesize ≤ 256
    → nbytes < size
    → size ≤ 2 ^ 31
    → (0 < round_length m size address nbytes)
      × (address % m.pagesize + round_length m size address nbytes ≤ m.pagesize)
      × (nbytes + round_length m size address nbytes ≤ size)
unfolding round_length
round_length_lem m size address nbytes p small lt bound = ground arith
