-- ===== src/Atom2/Layouts/Areas.antt =====
-- How the areas of the memory lie in each layout.
use libdc_swift.Prelude.{◌+◌, ◌-◌, ◌%◌, ◌^◌, ◌≤◌, ◌<◌, ◌≡◌, ◌⊎◌, arith}
use libdc_swift.Atom2.Layouts.Shape.{Layout}
use libdc_swift.Atom2.Layouts.{LayoutId, layout_of, aeris_f10}

-- The device information, the pointers, the logbook and the profiles follow each other in the
-- memory without overlap, and each begins, as both rings end, on a page of 16 bytes. The rings have
-- at least a page each, or both are empty. The logbook's ring is a whole number of entries. The
-- high memory starts at a multiple of 256, and each memory address has a page number of 16 bits in
-- the mode that it is read in.
pub record IsLayout (l : Layout) : Type 0 where
  pub pointers_first : l.cf_devinfo + 16 ≤ l.cf_pointers
  pub logbook_after : l.cf_pointers + 16 ≤ l.rb_logbook_begin
  pub devinfo_aligned : l.cf_devinfo % 16 ≡ 0
  pub pointers_aligned : l.cf_pointers % 16 ≡ 0
  pub logbook_begin_aligned : l.rb_logbook_begin % 16 ≡ 0
  pub logbook_end_aligned : l.rb_logbook_end % 16 ≡ 0
  pub profile_begin_aligned : l.rb_profile_begin % 16 ≡ 0
  pub profile_end_aligned : l.rb_profile_end % 16 ≡ 0
  pub profile_after : l.rb_logbook_end ≤ l.rb_profile_begin
  pub rings :
      ((l.rb_logbook_begin + 16 ≤ l.rb_logbook_end) × (l.rb_profile_begin + 16 ≤ l.rb_profile_end))
      ⊎ ((l.rb_logbook_begin ≡ l.rb_logbook_end) × (l.rb_profile_begin ≡ l.rb_profile_end))
  pub profile_inside : l.rb_profile_end ≤ l.memsize
  pub some_entry : 0 < l.rb_logbook_entry_size
  pub entry_fits : l.rb_logbook_entry_size ≤ 0x200
  pub entries_whole : (l.rb_logbook_end - l.rb_logbook_begin) % l.rb_logbook_entry_size ≡ 0
  pub memory_small : l.memsize ≤ 2 ^ 30
  pub memory_pages : l.memsize % 16 ≡ 0
  pub top_aligned : l.highmem % 256 ≡ 0
  pub top_inside : l.highmem ≤ l.memsize
  pub low_numbers : l.highmem ≤ 2 ^ 20
  pub whole_numbers : (0 < l.highmem) ⊎ (l.memsize ≤ 2 ^ 20)
  pub high_numbers : l.memsize ≤ l.highmem + 2 ^ 24

-- In each of the 21 layouts the device information, the pointers, the logbook and the profiles
-- follow each other in the memory without overlap, and each begins, as both rings end, on a page of
-- 16 bytes. Both rings have at least a page, or both are empty. An entry of the logbook has between
-- 1 and 512 bytes, and the logbook's ring is a whole number of entries. The memory is whole pages
-- and at most 1 GiB. The high memory starts at a multiple of 256, and each address has a page number
-- of 16 bits in the mode that it is read in: below the high memory in pages of 16 bytes, from there
-- on in pages of 256 bytes.
pub layout_of-IsLayout : (l : LayoutId) → IsLayout (layout_of l)
unfolding layout_of
layout_of-IsLayout aeris_f10 = omega arith
layout_of-IsLayout _ = omega arith
