-- ===== src/Atom2/Layouts.antt =====
-- The memory layouts of libdivecomputer/src/oceanic_atom2.c. The code compares pointers to them, so
-- that a layout has an identity, `LayoutId`, beside its contents.
pub mod Shape
pub mod First
pub mod Second
pub mod Areas
pub mod Downloads
mod Tests
use Shape.{Layout}
use First.{
  aeris_f10_layout, aeris_f11_layout, oceanic_default_layout, oceanic_atom1_layout,
  oceanic_atom2a_layout, oceanic_atom2b_layout, oceanic_atom2c_layout, sherwood_wisdom_layout,
  oceanic_proplus3_layout, tusa_zenair_layout, oceanic_oc1_layout,
}
use Second.{
  oceanic_oci_layout, oceanic_atom3_layout, oceanic_vt4_layout, hollis_tx1_layout,
  oceanic_veo1_layout, oceanic_reactpro_layout, oceanic_proplusx_layout, aqualung_i770r_layout,
  aeris_a300cs_layout, aqualung_i450t_layout,
}

-- The addresses of the layout constants, in the order of the source.
pub data LayoutId : Type 0 where
  aeris_f10 aeris_f11 oceanic_default oceanic_atom1 oceanic_atom2a : LayoutId
  oceanic_atom2b oceanic_atom2c sherwood_wisdom oceanic_proplus3 tusa_zenair : LayoutId
  oceanic_oc1 oceanic_oci oceanic_atom3 oceanic_vt4 hollis_tx1 : LayoutId
  oceanic_veo1 oceanic_reactpro oceanic_proplusx aqualung_i770r aeris_a300cs : LayoutId
  aqualung_i450t : LayoutId

-- What each of them holds.
unfoldable pub layout_of : LayoutId → Layout
layout_of aeris_f10 = aeris_f10_layout
layout_of aeris_f11 = aeris_f11_layout
layout_of oceanic_default = oceanic_default_layout
layout_of oceanic_atom1 = oceanic_atom1_layout
layout_of oceanic_atom2a = oceanic_atom2a_layout
layout_of oceanic_atom2b = oceanic_atom2b_layout
layout_of oceanic_atom2c = oceanic_atom2c_layout
layout_of sherwood_wisdom = sherwood_wisdom_layout
layout_of oceanic_proplus3 = oceanic_proplus3_layout
layout_of tusa_zenair = tusa_zenair_layout
layout_of oceanic_oc1 = oceanic_oc1_layout
layout_of oceanic_oci = oceanic_oci_layout
layout_of oceanic_atom3 = oceanic_atom3_layout
layout_of oceanic_vt4 = oceanic_vt4_layout
layout_of hollis_tx1 = hollis_tx1_layout
layout_of oceanic_veo1 = oceanic_veo1_layout
layout_of oceanic_reactpro = oceanic_reactpro_layout
layout_of oceanic_proplusx = oceanic_proplusx_layout
layout_of aqualung_i770r = aqualung_i770r_layout
layout_of aeris_a300cs = aeris_a300cs_layout
layout_of aqualung_i450t = aqualung_i450t_layout
