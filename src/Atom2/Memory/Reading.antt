-- ===== src/Atom2/Memory/Reading.antt =====
-- The bytes that `oceanic_atom2_device_read` returns, against the memory of the dive computer.
use libdc_swift.Prelude.{
  ℕ, zero, suc, ◌+◌, ◌*◌, ◌%◌, ◌≤◌, ◌<◌, ◌≡◌, refl, sym, ap, ap₂, ◌∙◌, ◌⊎◌, inl, inr, List, [],
  ◌++◌, some, take, drop, ok, err, bind, Result, arith, Bool-cases, slice, slice-append, part-slice,
  ltb, eq→==,
}
use libdc_swift.Libdc.{Stream}
use libdc_swift.Atom2.Types.{Device, State, u32, invalid}
use libdc_swift.Atom2.Memory.{
  Mode, mode_of, switch_mode, page_of, round_length, load_page, read_rounds, device_read,
  highmem_of,
}
use libdc_swift.Atom2.Memory.Rounds.{
  IsValid, Fits-IsUsed, Before, switch_mode-Fits, le-mul, page_of_lem, round_length_lem,
}
use libdc_swift.Atom2.Memory.Cache.{
  Geometry, IsUsed, page_start, Truthful, CacheOk, Failed, Loaded, load_page-Loaded,
}

module _ {W : Type 0} (iostream : Stream W) (g : Geometry) (mem : ℕ → ℕ) where
  -- The call has returned the `size` bytes from address `base` on, or a read command has failed and
  -- the call with it. The cache is right again, and the layout, the page size and the model are as
  -- before.
  pub record IsRead (base size : ℕ) (d : Device) (p : Result (List ℕ) × State W) : Type 0 where
    pub cache_ok : CacheOk iostream g mem p.1.dev
    pub same_bigpage : p.1.dev.bigpage ≡ d.bigpage
    pub same_layout : p.1.dev.layout ≡ d.layout
    pub same_model : p.1.dev.model ≡ d.model
    pub outcome : (p.0 ≡ ok (slice mem base size)) ⊎ Failed iostream g mem p.0 p.1

  -- Enough fuel for a round, and the loop's bookkeeping at its start.
  record Going (base size fuel address nbytes : ℕ) (m : Mode) (out : List ℕ) (d : Device)
      : Type 0 where
    here : address ≡ base + nbytes
    within : nbytes ≤ size
    fuelled : size ≤ nbytes + fuel
    mode : Before g address m
    copied : out ≡ slice mem base nbytes
    cache_ok : CacheOk iostream g mem d
    same_bigpage : d.bigpage ≡ g.bigpage

  -- A failed round is a failed call.
  bind-IsRead :
      (base size : ℕ) (m : Mode) (page : ℕ) (d : Device) (p : Result (Unit {0}) × State W)
      (rest : State W → Result (List ℕ) × State W)
      → Loaded iostream g mem m page d p
      → ((s : State W)
          → CacheOk iostream g mem s.dev
          → s.dev.bigpage ≡ d.bigpage
          → take m.pagesize s.dev.cache ≡ slice mem (page_start m page) m.pagesize
          → IsRead base size s.dev (rest s))
      → IsRead base size d (bind p (λ _. rest))
  bind-IsRead base size m page d (ok tt, s) rest l k = elim l.outcome [
    | inl h ↦
        let r = k s l.cache_ok l.same_bigpage h.1 in
        record {
          cache_ok = r.cache_ok;
          same_bigpage = r.same_bigpage ∙ l.same_bigpage;
          same_layout = r.same_layout ∙ l.same_layout;
          same_model = r.same_model ∙ l.same_model;
          outcome = r.outcome;
        }
    | inr f ↦ absurd (cc f.returned)
  ]
  bind-IsRead base size m page d (err e, s) rest l k = elim l.outcome [
    | inl h ↦ absurd (cc h.0)
    | inr f ↦ record {
      cache_ok = l.cache_ok;
      same_bigpage = l.same_bigpage;
      same_layout = l.same_layout;
      same_model = l.same_model;
      outcome = inr (record {
        mode = f.mode;
        page = f.page;
        before = f.before;
        error = f.error;
        used = f.used;
        transfer_failed = f.transfer_failed;
        returned = ap as_read f.returned;
      });
    }
  ]
    where
      as_read : Result (Unit {0}) → Result (List ℕ)
      as_read (ok u) = ok []
      as_read (err x) = err x

  -- The bookkeeping after a round.
  Going-next :
      (base size fuel address nbytes : ℕ) (m : Mode) (out : List ℕ) (d d' : Device)
      → IsValid g
      → base + size ≤ g.memsize
      → nbytes < size
      → Going base size (suc fuel) address nbytes m out d
      → CacheOk iostream g mem d'
      → d'.bigpage ≡ d.bigpage
      → let m' = switch_mode g.top address m in
        let len = round_length m' size address nbytes in
        take m'.pagesize d'.cache ≡ slice mem (page_start m' (page_of m' address)) m'.pagesize
        → Going base size fuel
            (u32 (address + len))
            (nbytes + len)
            m'
            (out ++ take len (drop (address % m'.pagesize) d'.cache))
            d'
  Going-next base size fuel address nbytes m out d d' v bound lt go c same cached =
      let m' = switch_mode g.top address m in
      let fits = switch_mode-Fits g address m v go.mode in
      let len = round_length m' size address nbytes in
      let (positive, small, start) = page_of_lem g address m' v fits in
      let step = round_length_lem m' size address nbytes positive small lt (omega arith) in
      let here' : u32 (address + len) ≡ base + (nbytes + len) = omega arith in
      let part : take len (drop (address % m'.pagesize) d'.cache) ≡ slice mem address len =
        part-slice mem d'.cache _ m'.pagesize (address % m'.pagesize) len cached step.1
        ∙ ap (λ a. slice mem a len) start in
      record {
        here = here';
        within = step.2;
        fuelled = omega arith;
        mode = elim fits [ inl h ↦ inl h.0 | inr h ↦ inr (h.0, h.1, omega arith) ];
        copied = ap₂ ◌++◌ go.copied part ∙ slice-append mem base nbytes address len (sym go.here);
        cache_ok = c;
        same_bigpage = same ∙ go.same_bigpage;
      }

  read_rounds-IsRead :
      (base size fuel address nbytes : ℕ) (m : Mode) (out : List ℕ) (s : State W)
      → IsValid g
      → Truthful iostream g mem
      → base + size ≤ g.memsize
      → Going base size fuel address nbytes m out s.dev
      → IsRead base size s.dev (read_rounds iostream fuel g.top size m address nbytes out s)
  unfolding read_rounds
  read_rounds-IsRead base size zero address nbytes m out s v truthful bound go = record {
    cache_ok = go.cache_ok;
    same_bigpage = refl;
    same_layout = refl;
    same_model = refl;
    outcome = inl (rw go.copied (ap (λ n. ok (slice mem base n)) (omega arith)));
  }
  read_rounds-IsRead base size (suc fuel) address nbytes m out s v truthful bound go =
      elim (Bool-cases (ltb nbytes size)) [
        | inr end ↦ rw end (record {
          cache_ok = go.cache_ok;
          same_bigpage = refl;
          same_layout = refl;
          same_model = refl;
          outcome = inl (rw go.copied (ap (λ n. ok (slice mem base n)) (ground arith)));
        })
        | inl more ↦
            let m' = switch_mode g.top address m in
            let fits = switch_mode-Fits g address m v go.mode in
            let lt : nbytes < size = ground arith in
            let page_at = page_of_lem g address m' v fits in
            let inside : page_start m' (page_of m' address) < g.memsize = omega arith in
            rw more (
              bind-IsRead base size m' (page_of m' address) s.dev
                (load_page iostream m' (page_of m' address) s) _
                (load_page-Loaded iostream g mem m' (page_of m' address) s v.low_at_zero truthful
                  (Fits-IsUsed g address m' fits) inside go.cache_ok go.same_bigpage)
                (λ t c same cached. read_rounds-IsRead base size fuel _ _ m' _ t v truthful bound (
                  Going-next base size fuel address nbytes m out s.dev t.dev v bound lt go c same
                    cached)))
      ]

  -- Reading a stretch of the memory, both ends on the page grid of 16 bytes, returns exactly those
  -- bytes, or fails because a read command has failed: it depends neither on what is cached, as
  -- long as that is right, nor on page sizes or on the border of the high memory. The cache is
  -- right afterwards. It is assumed that the device answers each read command for a page of its
  -- memory with that page, and that the memory ends below 2 GiB.
  pub device_read-IsRead :
      (address size : ℕ) (s : State W)
      → IsValid g
      → Truthful iostream g mem
      → mode_of s.dev ≡ some g.low
      → highmem_of s.dev ≡ g.top
      → s.dev.bigpage ≡ g.bigpage
      → CacheOk iostream g mem s.dev
      → address % 16 ≡ 0
      → size % 16 ≡ 0
      → address + size ≤ g.memsize
      → IsRead address size s.dev (device_read iostream address size s)
  unfolding device_read
  device_read-IsRead address size s v truthful low top big c a b bound =
      rw (eq→== a, eq→== b, low, top)
        (read_rounds-IsRead address size size address 0 g.low [] s v truthful bound (record {
          here = omega arith;
          within = omega arith;
          fuelled = omega arith;
          mode = inl refl;
          copied = refl;
          cache_ok = c;
          same_bigpage = big;
        }))

  -- A cache that is marked empty is right.
  pub CacheOk-empty : (d : Device) → IsValid g → d.cached_page ≡ invalid → CacheOk iostream g mem d
  CacheOk-empty d v empty m page u lt e e' = absurd (below m.pagesize m.highmem lt (positive u))
    where
      positive : IsUsed g m → 0 < m.pagesize
      positive (inl h) = rw h v.page_positive
      positive (inr h) = rw h.0 (omega arith)

      below : (n k : ℕ) → k + page * n < g.memsize → 0 < n → ⊥
      below n k h p = omega (arith, le-mul page n p)
