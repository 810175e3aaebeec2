-- ===== src/Atom2/Memory/Cache.antt =====
-- What a round of `oceanic_atom2_device_read` makes of the page cache.
use libdc_swift.Prelude.{
  ℕ, ◌+◌, ◌*◌, ◌<◌, ◌≡◌, ◌≢◌, refl, sym, ap, ◌∙◌, ◌⊎◌, inl, inr, ◌&&◌, List, ◌++◌, length, take,
  drop, ok, err, Error, Result, arith, Bool-cases, slice, length-slice, take-append_self, ◌==◌,
}
use libdc_swift.Libdc.{Stream}
use libdc_swift.Atom2.Types.{Device, State, page_size, u32}
use libdc_swift.Atom2.Packet.{transfer}
use libdc_swift.Atom2.Session.{device_version}
use libdc_swift.Atom2.Session.Unchanged.{
  Keeps, Keeps-trans, transfer-Keeps, device_version-Keeps, ble_handshake-Keeps,
}
use libdc_swift.Atom2.Memory.{Mode, read_command, rehandshake, cache_page, load_page, fill_cache}

module _ {W : Type 0} (iostream : Stream W) where
  rehandshake-Keeps : (s : State W) → Keeps s.dev (rehandshake iostream s).dev
  unfolding rehandshake
  rehandshake-Keeps s =
      let counter = u32 (s.dev.handshake_counter + 1) in
      let counted = record s { dev = record s.dev { handshake_counter = counter } } in
      let versioned = (device_version iostream page_size counted).1 in
      ground (
        arith,
        device_version-Keeps iostream page_size counted,
        ble_handshake-Keeps iostream versioned,
      )

-- The two ways in which one device is read: `low` as `mode_of` gives it, with the page size that
-- belongs to `bigpage`, and from `top` on the high memory, where there is one.
pub record Geometry : Type 0 where
  pub low : Mode
  pub bigpage : ℕ
  pub top : ℕ
  pub memsize : ℕ

abbrev pub high_mode : ℕ → Mode
high_mode top = record { read_cmd = 0xF6; crc_size = 2; pagesize = 256; highmem = top }

abbrev pub IsUsed : Geometry → Mode → Type 0
IsUsed g m = (m ≡ g.low) ⊎ ((m ≡ high_mode g.top) × (g.top ≢ 0))

abbrev pub page_start : Mode → ℕ → ℕ
page_start m page = m.highmem + page * m.pagesize

same_mode :
    (g : Geometry) {m m' : Mode}
    → g.low.highmem ≡ 0
    → IsUsed g m
    → IsUsed g m'
    → m.highmem ≡ m'.highmem
    → m ≡ m'
same_mode g low u u' e = ground arith

module _ {W : Type 0} (iostream : Stream W) (g : Geometry) (mem : ℕ → ℕ) where
  -- The dive computer answers each read command for a page of its memory with that page.
  abbrev pub Truthful : Type 0
  Truthful =
      (m : Mode) (page : ℕ) (s : State W) (answer : List ℕ) (s' : State W)
      → IsUsed g m
      → page_start m page < g.memsize
      → transfer iostream (read_command m g.bigpage page) s ≡ (ok answer, s')
      → answer ≡ slice mem (page_start m page) m.pagesize

  -- If the cache is marked to hold a page of the memory, it does.
  abbrev pub CacheOk : Device → Type 0
  CacheOk d =
      (m : Mode) (page : ℕ)
      → IsUsed g m
      → page_start m page < g.memsize
      → page ≡ d.cached_page
      → m.highmem ≡ d.cached_highmem
      → take m.pagesize d.cache ≡ slice mem (page_start m page) m.pagesize

  -- The call ended, with `r` in the state `s'`, by the failure of a read command.
  pub record Failed {A : Type 0} (r : Result A) (s' : State W) : Type 0 where
    pub mode : Mode
    pub page : ℕ
    pub before : State W
    pub error : Error
    pub used : IsUsed g mode
    pub transfer_failed :
        transfer iostream (read_command mode g.bigpage page) before ≡ (err error, s')
    pub returned : r ≡ err error

  CacheOk-Keeps : {d d' : Device} → Keeps d d' → CacheOk d → CacheOk d'
  CacheOk-Keeps k h m page u lt e e' =
      rw k.same_cache (h m page u lt (e ∙ k.same_page) (e' ∙ k.same_highmem))

  fill_cache-page :
      (m : Mode) (page : ℕ) (answer : List ℕ) (s : State W)
      → answer ≡ slice mem (page_start m page) m.pagesize
      → take m.pagesize (fill_cache iostream m page answer s).dev.cache
        ≡ slice mem (page_start m page) m.pagesize
  unfolding fill_cache
  fill_cache-page m page answer s e =
      let size : length answer ≡ m.pagesize = ap length e ∙ length-slice mem _ _ in
      let rest = drop (length answer) s.dev.cache in
      ap (λ k. take k (answer ++ rest)) (sym size) ∙ (take-append_self answer rest ∙ e)

  fill_cache-CacheOk :
      (m : Mode) (page : ℕ) (answer : List ℕ) (s : State W)
      → g.low.highmem ≡ 0
      → IsUsed g m
      → answer ≡ slice mem (page_start m page) m.pagesize
      → CacheOk (fill_cache iostream m page answer s).dev
  unfolding fill_cache
  fill_cache-CacheOk m page answer s low u e m' page' u' lt same_page same_highmem =
      rw (same_mode g low u' u same_highmem, same_page) (fill_cache-page m page answer s e)

  -- After a round's work the page is in the cache, or its read command has failed.
  pub record Loaded (m : Mode) (page : ℕ) (d : Device) (p : Result (Unit {0}) × State W)
      : Type 0 where
    pub cache_ok : CacheOk p.1.dev
    pub same_bigpage : p.1.dev.bigpage ≡ d.bigpage
    pub same_layout : p.1.dev.layout ≡ d.layout
    pub same_model : p.1.dev.model ≡ d.model
    pub outcome :
        ((p.0 ≡ ok tt) × (take m.pagesize p.1.dev.cache ≡ slice mem (page_start m page) m.pagesize))
        ⊎ Failed p.0 p.1

  cache_page-Loaded :
      (m : Mode) (page : ℕ) (d : Device) (s : State W) (p : Result (List ℕ) × State W)
      → g.low.highmem ≡ 0
      → Truthful
      → IsUsed g m
      → page_start m page < g.memsize
      → CacheOk d
      → Keeps d p.1.dev
      → transfer iostream (read_command m g.bigpage page) s ≡ p
      → Loaded m page d (cache_page iostream m page p)
  unfolding cache_page
  cache_page-Loaded m page d s (ok answer, s') low truthful u lt c k e =
      let right = truthful m page s answer s' u lt e in
      record {
        cache_ok = fill_cache-CacheOk m page answer s' low u right;
        same_bigpage = unfold fill_cache in k.same_bigpage;
        same_layout = unfold fill_cache in k.same_layout;
        same_model = unfold fill_cache in k.same_model;
        outcome = inl (refl, fill_cache-page m page answer s' right);
      }
  cache_page-Loaded m page d s (err x, s') low truthful u lt c k e = record {
    cache_ok = CacheOk-Keeps k c;
    same_bigpage = k.same_bigpage;
    same_layout = k.same_layout;
    same_model = k.same_model;
    outcome = inr (record {
      mode = m;
      page = page;
      before = s;
      error = x;
      used = u;
      transfer_failed = e;
      returned = refl;
    });
  }

  pub load_page-Loaded :
      (m : Mode) (page : ℕ) (s : State W)
      → g.low.highmem ≡ 0
      → Truthful
      → IsUsed g m
      → page_start m page < g.memsize
      → CacheOk s.dev
      → s.dev.bigpage ≡ g.bigpage
      → Loaded m page s.dev (load_page iostream m page s)
  unfolding load_page
  load_page-Loaded m page s low truthful u lt c e =
      elim (Bool-cases ((page == s.dev.cached_page) && (m.highmem == s.dev.cached_highmem))) [
        | inl hit ↦ rw hit (record {
          cache_ok = c;
          same_bigpage = refl;
          same_layout = refl;
          same_model = refl;
          outcome = inl (refl, c m page u lt (ground arith) (ground arith));
        })
        | inr miss ↦
            let k = rehandshake-Keeps iostream s in
            let command = read_command m g.bigpage page in
            let s' = rehandshake iostream s in
            rw (miss, k.same_bigpage ∙ e)
              (cache_page-Loaded m page s.dev s' (transfer iostream command s') low truthful u lt c
                (Keeps-trans k (transfer-Keeps iostream command s')) refl)
      ]
