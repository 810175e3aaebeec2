-- ===== src/Atom2/Layouts/Shape.antt =====
-- `oceanic_common_layout_t` of libdivecomputer/src/oceanic_common.h.
use libdc_swift.Prelude.{ℕ}

-- The areas of a dive computer's memory.
pub record Layout : Type 0 where
  pub memsize : ℕ
  pub highmem : ℕ
  pub cf_devinfo : ℕ
  pub cf_pointers : ℕ
  pub rb_logbook_begin : ℕ
  pub rb_logbook_end : ℕ
  pub rb_logbook_entry_size : ℕ
  pub rb_logbook_direction : ℕ
  pub rb_profile_begin : ℕ
  pub rb_profile_end : ℕ
  pub pt_mode_global : ℕ
  pub pt_mode_logbook : ℕ
  pub pt_mode_serial : ℕ
