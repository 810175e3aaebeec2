-- ===== src/Atom2/Memory/Serving.antt =====
-- `oceanic_atom2_device_read` as the read of a memory: what the code above the driver relies on.
use libdc_swift.Prelude.{ℕ, ◌≡◌, ◌∙◌, ◌⊎◌, inl, inr, List, some, ok, err, Error, Result, slice}
use libdc_swift.Libdc.{Stream}
use libdc_swift.Atom2.Types.{Device, State}
use libdc_swift.Atom2.Packet.{transfer}
use libdc_swift.Atom2.Memory.{Mode, mode_of, highmem_of, read_command, device_read}
use libdc_swift.Atom2.Memory.Rounds.{IsValid}
use libdc_swift.Atom2.Memory.Cache.{Geometry, IsUsed, Truthful, CacheOk, Failed}
use libdc_swift.Atom2.Memory.Reading.{IsRead, device_read-IsRead}
use libdc_swift.Common.RbStream.Standing.{Serves}
use libdc_swift.Common.Base.Dump.{IsMemory}

module _ {W : Type 0} (iostream : Stream W) (g : Geometry) (mem : ℕ → ℕ) where
  -- A device that is read in the ways of `g` and whose cache is right.
  pub record IsReady (s : State W) : Type 0 where
    pub low : mode_of s.dev ≡ some g.low
    pub top : highmem_of s.dev ≡ g.top
    pub same_bigpage : s.dev.bigpage ≡ g.bigpage
    pub cache_ok : CacheOk iostream g mem s.dev

  -- A read command for a page of the memory fails with the error.
  abbrev pub ReadFails : Error → Type 0
  ReadFails e =
      (m : Mode) × (page : ℕ) × (s : State W) × (s' : State W) × IsUsed g m
      × (transfer iostream (read_command m g.bigpage page) s ≡ (err e, s'))

  mode_of_same :
      (d d' : Device) → d'.bigpage ≡ d.bigpage → d'.model ≡ d.model → mode_of d' ≡ mode_of d
  unfolding mode_of
  mode_of_same d d' big model = cc

  highmem_of_same : (d d' : Device) → d'.layout ≡ d.layout → highmem_of d' ≡ highmem_of d
  unfolding highmem_of
  highmem_of_same d d' same = cc

  IsReady-IsRead :
      (a n : ℕ) (s : State W) (p : Result (List ℕ) × State W)
      → IsReady s
      → IsRead iostream g mem a n s.dev p
      → IsReady p.1
  IsReady-IsRead a n s p r h = record {
    low = mode_of_same s.dev p.1.dev h.same_bigpage h.same_model ∙ r.low;
    top = highmem_of_same s.dev p.1.dev h.same_layout ∙ r.top;
    same_bigpage = h.same_bigpage ∙ r.same_bigpage;
    cache_ok = h.cache_ok;
  }

  served :
      (a n : ℕ) (s : State W) (p : Result (List ℕ) × State W)
      → IsReady s
      → IsRead iostream g mem a n s.dev p
      → Serves IsReady ReadFails (slice mem a n) p
  served a n s (ok bytes, s') r h = (answer h.outcome, IsReady-IsRead a n s (ok bytes, s') r h)
    where
      answer :
          (ok bytes ≡ ok (slice mem a n)) ⊎ Failed iostream g mem (ok bytes) s'
          → bytes ≡ slice mem a n
      answer (inl e) = cc
      answer (inr f) = absurd (cc f.returned)
  served a n s (err e, s') r h = (failure h.outcome, IsReady-IsRead a n s (err e, s') r h)
    where
      failure :
          (err e ≡ ok (slice mem a n)) ⊎ Failed iostream g mem {A = List ℕ} (err e) s' → ReadFails e
      failure (inl x) = absurd (cc)
      failure (inr f) = (f.mode, f.page, f.before, s', f.used, cc (f.transfer_failed, f.returned))

  pub device_read-IsMemory :
      IsValid g
      → Truthful iostream g mem
      → IsMemory IsReady ReadFails mem g.memsize (device_read iostream)
  device_read-IsMemory v truthful a n s r x y inside = served a n s (device_read iostream a n s) r (
      device_read-IsRead iostream g mem a n s v truthful r.low r.top r.same_bigpage r.cache_ok x y
        inside)
