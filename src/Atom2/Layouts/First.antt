-- ===== src/Atom2/Layouts/First.antt =====
-- The layout constants of libdivecomputer/src/oceanic_atom2.c, the first eleven.
use libdc_swift.Atom2.Layouts.Shape.{Layout}

abbrev pub aeris_f10_layout : Layout
aeris_f10_layout = record {
  memsize = 0x10000;
  highmem = 0;
  cf_devinfo = 0x0000;
  cf_pointers = 0x0040;
  rb_logbook_begin = 0x0100;
  rb_logbook_end = 0x0D80;
  rb_logbook_entry_size = 32;
  rb_logbook_direction = 1;
  rb_profile_begin = 0x0D80;
  rb_profile_end = 0x10000;
  pt_mode_global = 0;
  pt_mode_logbook = 3;
  pt_mode_serial = 0;
}

abbrev pub aeris_f11_layout : Layout
aeris_f11_layout = record {
  memsize = 0x20000;
  highmem = 0;
  cf_devinfo = 0x0000;
  cf_pointers = 0x0040;
  rb_logbook_begin = 0x0100;
  rb_logbook_end = 0x0D80;
  rb_logbook_entry_size = 32;
  rb_logbook_direction = 1;
  rb_profile_begin = 0x0D80;
  rb_profile_end = 0x20000;
  pt_mode_global = 0;
  pt_mode_logbook = 2;
  pt_mode_serial = 0;
}

abbrev pub oceanic_default_layout : Layout
oceanic_default_layout = record {
  memsize = 0x10000;
  highmem = 0;
  cf_devinfo = 0x0000;
  cf_pointers = 0x0040;
  rb_logbook_begin = 0x0240;
  rb_logbook_end = 0x0A40;
  rb_logbook_entry_size = 8;
  rb_logbook_direction = 1;
  rb_profile_begin = 0x0A40;
  rb_profile_end = 0x10000;
  pt_mode_global = 0;
  pt_mode_logbook = 0;
  pt_mode_serial = 0;
}

abbrev pub oceanic_atom1_layout : Layout
oceanic_atom1_layout = record {
  memsize = 0x8000;
  highmem = 0;
  cf_devinfo = 0x0000;
  cf_pointers = 0x0040;
  rb_logbook_begin = 0x0240;
  rb_logbook_end = 0x0440;
  rb_logbook_entry_size = 8;
  rb_logbook_direction = 1;
  rb_profile_begin = 0x0440;
  rb_profile_end = 0x8000;
  pt_mode_global = 0;
  pt_mode_logbook = 0;
  pt_mode_serial = 0;
}

abbrev pub oceanic_atom2a_layout : Layout
oceanic_atom2a_layout = record {
  memsize = 0xFFF0;
  highmem = 0;
  cf_devinfo = 0x0000;
  cf_pointers = 0x0040;
  rb_logbook_begin = 0x0240;
  rb_logbook_end = 0x0A40;
  rb_logbook_entry_size = 8;
  rb_logbook_direction = 1;
  rb_profile_begin = 0x0A40;
  rb_profile_end = 0xFE00;
  pt_mode_global = 0;
  pt_mode_logbook = 0;
  pt_mode_serial = 0;
}

abbrev pub oceanic_atom2b_layout : Layout
oceanic_atom2b_layout = record {
  memsize = 0x10000;
  highmem = 0;
  cf_devinfo = 0x0000;
  cf_pointers = 0x0040;
  rb_logbook_begin = 0x0240;
  rb_logbook_end = 0x0A40;
  rb_logbook_entry_size = 8;
  rb_logbook_direction = 1;
  rb_profile_begin = 0x0A40;
  rb_profile_end = 0xFE00;
  pt_mode_global = 0;
  pt_mode_logbook = 0;
  pt_mode_serial = 0;
}

abbrev pub oceanic_atom2c_layout : Layout
oceanic_atom2c_layout = record {
  memsize = 0xFFF0;
  highmem = 0;
  cf_devinfo = 0x0000;
  cf_pointers = 0x0040;
  rb_logbook_begin = 0x0240;
  rb_logbook_end = 0x0A40;
  rb_logbook_entry_size = 8;
  rb_logbook_direction = 1;
  rb_profile_begin = 0x0A40;
  rb_profile_end = 0xFFF0;
  pt_mode_global = 0;
  pt_mode_logbook = 0;
  pt_mode_serial = 0;
}

abbrev pub sherwood_wisdom_layout : Layout
sherwood_wisdom_layout = record {
  memsize = 0xFFF0;
  highmem = 0;
  cf_devinfo = 0x0000;
  cf_pointers = 0x0040;
  rb_logbook_begin = 0x03D0;
  rb_logbook_end = 0x0A40;
  rb_logbook_entry_size = 8;
  rb_logbook_direction = 1;
  rb_profile_begin = 0x0A40;
  rb_profile_end = 0xFE00;
  pt_mode_global = 0;
  pt_mode_logbook = 0;
  pt_mode_serial = 0;
}

abbrev pub oceanic_proplus3_layout : Layout
oceanic_proplus3_layout = record {
  memsize = 0x10000;
  highmem = 0;
  cf_devinfo = 0x0000;
  cf_pointers = 0x0040;
  rb_logbook_begin = 0x03E0;
  rb_logbook_end = 0x0A40;
  rb_logbook_entry_size = 8;
  rb_logbook_direction = 1;
  rb_profile_begin = 0x0A40;
  rb_profile_end = 0xFE00;
  pt_mode_global = 0;
  pt_mode_logbook = 0;
  pt_mode_serial = 0;
}

abbrev pub tusa_zenair_layout : Layout
tusa_zenair_layout = record {
  memsize = 0xFFF0;
  highmem = 0;
  cf_devinfo = 0x0000;
  cf_pointers = 0x0040;
  rb_logbook_begin = 0x0240;
  rb_logbook_end = 0x0A40;
  rb_logbook_entry_size = 8;
  rb_logbook_direction = 1;
  rb_profile_begin = 0x0A40;
  rb_profile_end = 0xFE00;
  pt_mode_global = 0;
  pt_mode_logbook = 1;
  pt_mode_serial = 0;
}

abbrev pub oceanic_oc1_layout : Layout
oceanic_oc1_layout = record {
  memsize = 0x20000;
  highmem = 0;
  cf_devinfo = 0x0000;
  cf_pointers = 0x0040;
  rb_logbook_begin = 0x0240;
  rb_logbook_end = 0x0A40;
  rb_logbook_entry_size = 8;
  rb_logbook_direction = 1;
  rb_profile_begin = 0x0A40;
  rb_profile_end = 0x1FE00;
  pt_mode_global = 0;
  pt_mode_logbook = 1;
  pt_mode_serial = 0;
}
