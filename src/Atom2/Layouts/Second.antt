-- ===== src/Atom2/Layouts/Second.antt =====
-- The layout constants of libdivecomputer/src/oceanic_atom2.c, the last ten.
use libdc_swift.Atom2.Layouts.Shape.{Layout}

abbrev pub oceanic_oci_layout : Layout
oceanic_oci_layout = record {
  memsize = 0x20000;
  highmem = 0;
  cf_devinfo = 0x0000;
  cf_pointers = 0x0040;
  rb_logbook_begin = 0x10C0;
  rb_logbook_end = 0x1400;
  rb_logbook_entry_size = 8;
  rb_logbook_direction = 1;
  rb_profile_begin = 0x1400;
  rb_profile_end = 0x1FE00;
  pt_mode_global = 0;
  pt_mode_logbook = 1;
  pt_mode_serial = 0;
}

abbrev pub oceanic_atom3_layout : Layout
oceanic_atom3_layout = record {
  memsize = 0x20000;
  highmem = 0;
  cf_devinfo = 0x0000;
  cf_pointers = 0x0040;
  rb_logbook_begin = 0x0400;
  rb_logbook_end = 0x0A40;
  rb_logbook_entry_size = 8;
  rb_logbook_direction = 1;
  rb_profile_begin = 0x0A40;
  rb_profile_end = 0x1FE00;
  pt_mode_global = 0;
  pt_mode_logbook = 1;
  pt_mode_serial = 0;
}

abbrev pub oceanic_vt4_layout : Layout
oceanic_vt4_layout = record {
  memsize = 0x20000;
  highmem = 0;
  cf_devinfo = 0x0000;
  cf_pointers = 0x0040;
  rb_logbook_begin = 0x0420;
  rb_logbook_end = 0x0A40;
  rb_logbook_entry_size = 8;
  rb_logbook_direction = 1;
  rb_profile_begin = 0x0A40;
  rb_profile_end = 0x1FE00;
  pt_mode_global = 0;
  pt_mode_logbook = 1;
  pt_mode_serial = 0;
}

abbrev pub hollis_tx1_layout : Layout
hollis_tx1_layout = record {
  memsize = 0x40000;
  highmem = 0;
  cf_devinfo = 0x0000;
  cf_pointers = 0x0040;
  rb_logbook_begin = 0x0780;
  rb_logbook_end = 0x1000;
  rb_logbook_entry_size = 8;
  rb_logbook_direction = 1;
  rb_profile_begin = 0x1000;
  rb_profile_end = 0x40000;
  pt_mode_global = 0;
  pt_mode_logbook = 1;
  pt_mode_serial = 0;
}

abbrev pub oceanic_veo1_layout : Layout
oceanic_veo1_layout = record {
  memsize = 0x0400;
  highmem = 0;
  cf_devinfo = 0x0000;
  cf_pointers = 0x0040;
  rb_logbook_begin = 0x0400;
  rb_logbook_end = 0x0400;
  rb_logbook_entry_size = 8;
  rb_logbook_direction = 1;
  rb_profile_begin = 0x0400;
  rb_profile_end = 0x0400;
  pt_mode_global = 0;
  pt_mode_logbook = 0;
  pt_mode_serial = 0;
}

abbrev pub oceanic_reactpro_layout : Layout
oceanic_reactpro_layout = record {
  memsize = 0xFFF0;
  highmem = 0;
  cf_devinfo = 0x0000;
  cf_pointers = 0x0040;
  rb_logbook_begin = 0x0400;
  rb_logbook_end = 0x0600;
  rb_logbook_entry_size = 8;
  rb_logbook_direction = 1;
  rb_profile_begin = 0x0600;
  rb_profile_end = 0xFE00;
  pt_mode_global = 1;
  pt_mode_logbook = 1;
  pt_mode_serial = 0;
}

abbrev pub oceanic_proplusx_layout : Layout
oceanic_proplusx_layout = record {
  memsize = 0x440000;
  highmem = 0x40000;
  cf_devinfo = 0x0000;
  cf_pointers = 0x0040;
  rb_logbook_begin = 0x1000;
  rb_logbook_end = 0x10000;
  rb_logbook_entry_size = 16;
  rb_logbook_direction = 1;
  rb_profile_begin = 0x40000;
  rb_profile_end = 0x440000;
  pt_mode_global = 0;
  pt_mode_logbook = 1;
  pt_mode_serial = 0;
}

abbrev pub aqualung_i770r_layout : Layout
aqualung_i770r_layout = record {
  memsize = 0x640000;
  highmem = 0x40000;
  cf_devinfo = 0x0000;
  cf_pointers = 0x0040;
  rb_logbook_begin = 0x2000;
  rb_logbook_end = 0x10000;
  rb_logbook_entry_size = 16;
  rb_logbook_direction = 1;
  rb_profile_begin = 0x40000;
  rb_profile_end = 0x640000;
  pt_mode_global = 0;
  pt_mode_logbook = 1;
  pt_mode_serial = 0;
}

abbrev pub aeris_a300cs_layout : Layout
aeris_a300cs_layout = record {
  memsize = 0x40000;
  highmem = 0;
  cf_devinfo = 0x0000;
  cf_pointers = 0x0040;
  rb_logbook_begin = 0x0900;
  rb_logbook_end = 0x1000;
  rb_logbook_entry_size = 16;
  rb_logbook_direction = 1;
  rb_profile_begin = 0x1000;
  rb_profile_end = 0x3FE00;
  pt_mode_global = 0;
  pt_mode_logbook = 1;
  pt_mode_serial = 0;
}

abbrev pub aqualung_i450t_layout : Layout
aqualung_i450t_layout = record {
  memsize = 0x40000;
  highmem = 0;
  cf_devinfo = 0x0000;
  cf_pointers = 0x0040;
  rb_logbook_begin = 0x10C0;
  rb_logbook_end = 0x1400;
  rb_logbook_entry_size = 16;
  rb_logbook_direction = 1;
  rb_profile_begin = 0x1400;
  rb_profile_end = 0x3FE00;
  pt_mode_global = 0;
  pt_mode_logbook = 1;
  pt_mode_serial = 0;
}
