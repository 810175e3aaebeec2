-- ===== src/Common/Foreach/Tests.antt =====
-- Two dives are downloaded, the more recent one first.
use libdc_swift.Prelude.{
  ℕ, ◌≡◌, refl, Bool, true, false, List, [], ◌∷◌, ◌++◌, ok, Call, slice, replicate, text_eq, get_or,
  length, ltb, if◌then◌else◌, ◌-◌, All, arith,
}
use libdc_swift.Atom2.Layouts.Shape.{Layout}
use libdc_swift.Common.RbStream.{rbstream_new, rbstream_read}
use libdc_swift.Common.Profile.{is_uninitialized, first_pass}
use libdc_swift.Common.Base.{Base, pointers_of, device_devinfo, device_pointers}
use libdc_swift.Common.Logbook.{device_logbook}
use libdc_swift.Common.Dives.{device_profile}
use libdc_swift.Common.Foreach.{Allocations, device_foreach}
use libdc_swift.Common.Dives.Handed.{IsDive}
use libdc_swift.Common.Foreach.New.{IsDownloadable, NewEntries, device_foreach-IsDive}

abbrev layout : Layout
layout = record {
  memsize = 0xC0;
  highmem = 0;
  cf_devinfo = 0;
  cf_pointers = 0x10;
  rb_logbook_begin = 0x20;
  rb_logbook_end = 0x40;
  rb_logbook_entry_size = 8;
  rb_logbook_direction = 1;
  rb_profile_begin = 0x40;
  rb_profile_end = 0xC0;
  pt_mode_global = 0;
  pt_mode_logbook = 0;
  pt_mode_serial = 0;
}

abbrev device : Base
device = record {
  firmware = 0;
  version = [];
  fingerprint = replicate 8 0;
  layout = layout;
  multipage = 1;
}

-- The pointers: the entries at 0x20 and 0x28. Their profiles are the pages 4 and 5, and the page 6.
abbrev head : List ℕ
head =
    replicate 20 0
    ++ (0x20 ∷ 0 ∷ 0x28 ∷ 0 ∷ [])
    ++ replicate 8 0
    ++ (1 ∷ 0 ∷ 0 ∷ 0 ∷ 0 ∷ 0x04 ∷ 0x50 ∷ 0x00 ∷ [])
    ++ (2 ∷ 0 ∷ 0 ∷ 0 ∷ 0 ∷ 0x06 ∷ 0x60 ∷ 0x00 ∷ [])

abbrev memory : ℕ → ℕ
memory a = if ltb a 0x30 then get_or head a 0 else a

-- The state is the list of the dives that were handed over, by the entry's first byte and the
-- profile's first byte and length.
abbrev Handed : Type 0
Handed = List (ℕ × ℕ × ℕ)

abbrev read_memory : ℕ → ℕ → Call Handed (List ℕ)
read_memory a n w = (ok (slice memory a n), w)

abbrev hand_over : Bool → List ℕ → Handed → Bool × Handed
hand_over more dive w = (more, w ++ (get_or dive 0 0, get_or dive 8 0, length dive - 8) ∷ [])

abbrev all_well : Allocations
all_well = record {
  buffer = true;
  logbook = true;
  logbook_stream = true;
  profile_stream = true;
  profiles = true;
}

both :
    device_foreach read_memory (λ v w. w) (λ i w. w) (hand_over true) all_well device []
    ≡ (ok tt, (2, 0x60, 16) ∷ (1, 0x40, 32) ∷ [])
unfolding device_foreach device_devinfo device_pointers device_logbook device_profile rbstream_new
    rbstream_read is_uninitialized text_eq first_pass
both = refl

stopped :
    device_foreach read_memory (λ v w. w) (λ i w. w) (hand_over false) all_well device []
    ≡ (ok tt, (2, 0x60, 16) ∷ [])
unfolding device_foreach device_devinfo device_pointers device_logbook device_profile rbstream_new
    rbstream_read is_uninitialized text_eq first_pass
stopped = refl

-- The state is the list of the dives, the last one first.
abbrev read_dives : ℕ → ℕ → Call (List (List ℕ)) (List ℕ)
read_dives a n w = (ok (slice memory a n), w)

abbrev keep_dive : List ℕ → List (List ℕ) → Bool × List (List ℕ)
keep_dive dive w = (true, dive ∷ w)

abbrev IsNewDive : List ℕ → Type 0
IsNewDive dive =
    (es : List (List ℕ)) × NewEntries memory device 0x20 0x30 es × IsDive memory layout es dive

abbrev AllNew : List (List ℕ) → Type 0
AllNew w = All IsNewDive w

device-IsDownloadable : IsDownloadable device
device-IsDownloadable = omega arith

device_foreach-IsDive_example :
    AllNew (device_foreach read_dives (λ v w. w) (λ i w. w) keep_dive all_well device []).1
unfolding pointers_of
device_foreach-IsDive_example =
    device_foreach-IsDive AllNew (λ e. ⊥) memory read_dives (λ v w. w) (λ i w. w) keep_dive device
      device-IsDownloadable (λ a n w k aligned whole inside. (refl, k)) all_well [] (λ v w k. k)
      (λ i w k. k) (λ es dive w k new is. ((es, new, is), k)) tt
