-- ===== src/Atom2/Open/Detected.antt =====
-- What the detection of the layout makes of a device.
use libdc_swift.Prelude.{
  ℕ, ◌*◌, ◌≤◌, ◌<◌, ◌≡◌, refl, ◌⊎◌, inl, inr, Bool, ◌==◌, if◌then◌else◌, Option, some, none, arith,
}
use libdc_swift.Atom2.Types.{Device, invalid}
use libdc_swift.Atom2.Layouts.Areas.{layout_of-IsLayout}
use libdc_swift.Atom2.Layouts.{LayoutId, layout_of, aeris_f10}
use libdc_swift.Atom2.Versions.{Version}
use libdc_swift.Atom2.Memory.{Mode, mode_of, proplus4}
use libdc_swift.Atom2.Memory.Cache.{Geometry}
use libdc_swift.Atom2.Memory.Rounds.{IsValid}
use libdc_swift.Atom2.Open.{bigpage_of, fallback_layout, detect}

-- The geometry of a device with a layout.
pub geometry : LayoutId → Mode → Device → Geometry
unfolding layout_of
geometry l m d = record {
  low = m;
  bigpage = d.bigpage;
  top = (layout_of l).highmem;
  memsize = (layout_of l).memsize;
}

-- A device that can be read.
pub record IsReadable (d : Device) : Type 0 where
  pub layout : LayoutId
  pub mode : Mode
  pub has_layout : d.layout ≡ some layout
  pub has_mode : mode_of d ≡ some mode
  pub valid : IsValid (geometry layout mode d)
  pub pages : mode.pagesize ≡ 16 * d.bigpage
  pub empty : d.cached_page ≡ invalid

bigpage-cases : (l : LayoutId) → (bigpage_of l ≡ 1) ⊎ ((bigpage_of l ≡ 8) ⊎ (bigpage_of l ≡ 16))
unfolding bigpage_of
bigpage-cases aeris_f10 = inl refl
bigpage-cases _ = omega arith

geometry-IsValid :
    (l : LayoutId) (m : Mode) (d : Device)
    → m.highmem ≡ 0
    → 0 < m.pagesize
    → m.pagesize ≤ 256
    → IsValid (geometry l m d)
unfolding geometry
geometry-IsValid l m d h p q =
    let v = layout_of-IsLayout l in
    record {
      low_at_zero = h;
      page_positive = p;
      page_small = q;
      top_aligned = v.top_aligned;
      memory_small = omega (arith, v.high_numbers, v.low_numbers);
    }

IsReadable-with :
    (l : LayoutId) (m : Mode) (d : Device)
    → d.layout ≡ some l
    → d.cached_page ≡ invalid
    → mode_of d ≡ some m
    → m.highmem ≡ 0
    → m.pagesize ≡ 16 * d.bigpage
    → 0 < d.bigpage
    → d.bigpage ≤ 16
    → IsReadable d
IsReadable-with l m d e c h z p pos small = record {
  layout = l;
  mode = m;
  has_layout = e;
  has_mode = h;
  valid = geometry-IsValid l m d z (omega arith) (omega arith);
  pages = p;
  empty = c;
}

abbrev HasMode : Device → Type 0
HasMode d =
    (m : Mode) × (mode_of d ≡ some m)
    × (m.highmem ≡ 0)
    × (m.pagesize ≡ 16 * d.bigpage)
    × (0 < d.bigpage)
    × (d.bigpage ≤ 16)

HasMode-of_bigpage :
    (d : Device) → (d.bigpage ≡ 1) ⊎ ((d.bigpage ≡ 8) ⊎ (d.bigpage ≡ 16)) → HasMode d
unfolding mode_of
HasMode-of_bigpage d (inl h) = (
  record { read_cmd = 0xB1; crc_size = 1; pagesize = 16; highmem = 0 },
  ground arith,
  refl,
  omega arith,
  omega arith,
  omega arith,
)
HasMode-of_bigpage d (inr (inl h)) = (
  record {
    read_cmd = 0xB4;
    crc_size = if d.model == proplus4 then 2 else 1;
    pagesize = 128;
    highmem = 0;
  },
  ground arith,
  refl,
  omega arith,
  omega arith,
  omega arith,
)
HasMode-of_bigpage d (inr (inr h)) = (
  record { read_cmd = 0xB8; crc_size = 2; pagesize = 256; highmem = 0 },
  ground arith,
  refl,
  omega arith,
  omega arith,
  omega arith,
)

IsReadable-of_layout :
    (l : LayoutId) (d : Device)
    → d.layout ≡ some l
    → d.bigpage ≡ bigpage_of l
    → d.cached_page ≡ invalid
    → IsReadable d
IsReadable-of_layout l d e b c =
    let (m, h, z, p, pos, small) = HasMode-of_bigpage d (rw b (bigpage-cases l)) in
    IsReadable-with l m d e c h z p pos small

-- Before the detection: small pages, and nothing cached.
pub record IsFresh (d : Device) : Type 0 where
  pub one_page : d.bigpage ≡ 1
  pub nothing_cached : d.cached_page ≡ invalid

pub detect-IsReadable :
    (over_ble : Bool) (m : Option (Version × ℕ)) (d : Device)
    → IsFresh d
    → IsReadable (detect over_ble m d)
unfolding detect
detect-IsReadable over_ble none d f =
    IsReadable-of_layout (fallback_layout d.version) _ refl (ground arith) f.nothing_cached
detect-IsReadable over_ble (some (v, firmware)) d f =
    IsReadable-of_layout v.layout _ refl (ground arith) f.nothing_cached
