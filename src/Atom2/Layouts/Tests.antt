-- ===== src/Atom2/Layouts/Tests.antt =====
-- The layout of the Hollis TX1.
use libdc_swift.Atom2.Layouts.{layout_of, hollis_tx1}
use libdc_swift.Atom2.Layouts.Areas.{IsLayout, layout_of-IsLayout}

layout_of-IsLayout_example : IsLayout (layout_of hollis_tx1)
layout_of-IsLayout_example = layout_of-IsLayout hollis_tx1
