-- ===== src/Atom2/Layouts/Downloads.antt =====
-- The layouts meet what the download of the dives asks for.
use mathlib.Core.Path.{subst}
use libdc_swift.Prelude.{◌+◌, ◌≤◌, ◌≡◌, ◌⊎◌, inl, inr, arith, sym}
use libdc_swift.Atom2.Layouts.{LayoutId, layout_of}
use libdc_swift.Atom2.Layouts.Areas.{IsLayout, layout_of-IsLayout}
use libdc_swift.Common.Base.{Base}
use libdc_swift.Common.Foreach.New.{IsDownloadable}

-- `oceanic_common_device_foreach` does nothing.
abbrev pub HasNoRings : Base → Type 0
HasNoRings d =
    (d.layout.rb_logbook_begin ≡ d.layout.rb_logbook_end)
    × (d.layout.rb_profile_begin ≡ d.layout.rb_profile_end)

IsLayout-IsDownloadable :
    (d : Base) → IsLayout d.layout → d.multipage ≡ 1 → HasNoRings d ⊎ IsDownloadable d
IsLayout-IsDownloadable d h one = either h.rings
  where
    either :
        ((d.layout.rb_logbook_begin + 16 ≤ d.layout.rb_logbook_end)
            × (d.layout.rb_profile_begin + 16 ≤ d.layout.rb_profile_end))
          ⊎ HasNoRings d
        → HasNoRings d ⊎ IsDownloadable d
    either (inr empty) = inl empty
    either (inl some_pages) = inr (record {
      logbook = omega (arith, h);
      profiles = omega (arith, h);
      logbook_inside = omega (arith, h);
      profiles_inside = omega (arith, h);
      devinfo_aligned = h.devinfo_aligned;
      devinfo_inside = omega (arith, h);
      pointers_aligned = h.pointers_aligned;
      pointers_inside = omega (arith, h);
    })

-- A device with any of the 21 layouts of the driver, and one page in a packet, as the driver has
-- it, has all its areas in the memory and on the page grid as the download of the dives needs them,
-- or has no rings, and then there is nothing to download.
pub layout_of-IsDownloadable :
    (l : LayoutId) (d : Base)
    → d.layout ≡ layout_of l
    → d.multipage ≡ 1
    → HasNoRings d ⊎ IsDownloadable d
layout_of-IsDownloadable l d same one =
    IsLayout-IsDownloadable d (subst IsLayout (sym same) (layout_of-IsLayout l)) one
