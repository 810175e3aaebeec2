-- ===== src/Atom2/Memory/Foreach.antt =====
-- The download of the dives through the driver's `oceanic_atom2_device_read`.
use libdc_swift.Prelude.{ℕ, ◌≤◌, Bool, List, [], ◌∷◌, ok, err, Result, Call, All, slice, arith}
use libdc_swift.Libdc.{Stream, DevInfo}
use libdc_swift.Atom2.Types.{State}
use libdc_swift.Atom2.Memory.{device_read}
use libdc_swift.Atom2.Memory.Rounds.{IsValid}
use libdc_swift.Atom2.Memory.Cache.{Geometry, Truthful}
use libdc_swift.Atom2.Memory.Serving.{IsReady, ReadFails, device_read-IsMemory}
use libdc_swift.Common.RbStream.Standing.{Serves}
use libdc_swift.Common.Base.{Base}
use libdc_swift.Common.Base.Dump.{IsMemory}
use libdc_swift.Common.Dives.Handed.{IsDive}
use libdc_swift.Common.Foreach.{Allocations, device_foreach}
use libdc_swift.Common.Foreach.New.{
  IsDownloadable, NewEntries, stored_pointers, device_foreach-IsDive,
}

-- The state of the driver with the dives that were handed over, the last one first.
abbrev pub Recorded : Type 0 → Type 0
Recorded W = State W × List (List ℕ)

module _ {W : Type 0} where
  abbrev record_answer : List (List ℕ) → Result (List ℕ) × State W → Result (List ℕ) × Recorded W
  record_answer dives p = (p.0, (p.1, dives))

  -- A read leaves the dives.
  abbrev pub reading : (ℕ → ℕ → Call (State W) (List ℕ)) → ℕ → ℕ → Call (Recorded W) (List ℕ)
  reading read a n w = record_answer w.1 (read a n w.0)

  abbrev pub telling {ℓ} : {A : Type ℓ} → (A → State W → State W) → A → Recorded W → Recorded W
  telling emit x w = (emit x w.0, w.1)

  -- The callback is called with the dive, which is recorded.
  abbrev pub handing : (List ℕ → State W → Bool × State W) → List ℕ → Recorded W → Bool × Recorded W
  handing callback dive w = let (more, s) = callback dive w.0 in (more, (s, dive ∷ w.1))

-- A dive of an entry that is new, as the memory has it.
abbrev pub IsNewDive : (ℕ → ℕ) → Base → List ℕ → Type 0
IsNewDive mem d dive =
    let p = stored_pointers mem d in
    (es : List (List ℕ)) × NewEntries mem d p.rb_logbook_begin p.rb_logbook_end es
    × IsDive mem d.layout es dive

module _ {W : Type 0} (iostream : Stream W) (g : Geometry) (mem : ℕ → ℕ) (d : Base) where
  abbrev pub IsDownloading : Recorded W → Type 0
  IsDownloading w = IsReady iostream g mem w.0 × All (IsNewDive mem d) w.1

  record_answer-Serves :
      (bytes : List ℕ) (dives : List (List ℕ)) (p : Result (List ℕ) × State W)
      → Serves (IsReady iostream g mem) (ReadFails iostream g mem) bytes p
      → All (IsNewDive mem d) dives
      → Serves IsDownloading (ReadFails iostream g mem) bytes (record_answer dives p)
  record_answer-Serves bytes dives (ok answer, s) h new = (h.0, (h.1, new))
  record_answer-Serves bytes dives (err e, s) h new = (h.0, (h.1, new))

  reading-IsMemory :
      IsValid g
      → Truthful iostream g mem
      → d.layout.memsize ≤ g.memsize
      → IsMemory IsDownloading
          (ReadFails iostream g mem)
          mem
          d.layout.memsize
          (reading (device_read iostream))
  reading-IsMemory v truthful fits a n w k aligned whole inside =
      record_answer-Serves (slice mem a n) w.1 (device_read iostream a n w.0)
        (device_read-IsMemory iostream g mem v truthful a n w.0 k.0 aligned whole (omega arith)) k.1

  -- Through the driver's page cache, its switch to the high memory and its transfers, the download
  -- of an opened dive computer hands over only dives, whatever the bytes of its memory say, and
  -- whichever transfers and allocations fail: each is an entry of the logbook and the bytes of the
  -- memory at its profile, the entry among those between the stored pointers that are met before
  -- the fingerprint's. The cache is right afterwards, so that the next download gets the memory
  -- again. Where the source would read or write outside a buffer, because the logbook's bytes are
  -- no whole number of entries, the download ends with the error `overrun`; nothing is said of what
  -- the source does from there on. It is assumed that the device answers each read command for a page of its memory with
  -- that page, that the areas of the layout lie in the memory within the sizes of `IsLogbook` and
  -- `IsRing`, and that the events and the callback keep the driver's state readable.
  pub device_foreach-device_read :
      (emit_vendor : List ℕ → State W → State W) (emit_devinfo : DevInfo → State W → State W)
      (callback : List ℕ → State W → Bool × State W) (a : Allocations) (s : State W)
      → IsValid g
      → Truthful iostream g mem
      → d.layout.memsize ≤ g.memsize
      → IsDownloadable d
      → ((version : List ℕ) (s : State W)
          → IsReady iostream g mem s
          → IsReady iostream g mem (emit_vendor version s))
      → ((info : DevInfo) (s : State W)
          → IsReady iostream g mem s
          → IsReady iostream g mem (emit_devinfo info s))
      → ((dive : List ℕ) (s : State W)
          → IsReady iostream g mem s
          → IsReady iostream g mem (callback dive s).1)
      → IsReady iostream g mem s
      → IsDownloading
          (device_foreach
            (reading (device_read iostream))
            (telling emit_vendor)
            (telling emit_devinfo)
            (handing callback)
            a
            d
            (s, [])).1
  device_foreach-device_read emit_vendor emit_devinfo callback a s v truthful fits down told_version
        told_info called ready =
      device_foreach-IsDive IsDownloading (ReadFails iostream g mem) mem
        (reading (device_read iostream)) (telling emit_vendor) (telling emit_devinfo)
        (handing callback) d down (reading-IsMemory v truthful fits) a (s, [])
        (λ version w k. (told_version version w.0 k.0, k.1))
        (λ info w k. (told_info info w.0 k.0, k.1))
        (λ es dive w k new is. (called dive w.0 k.0, ((es, new, is), k.1))) (ready, tt)
