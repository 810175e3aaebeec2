-- ===== src/Atom2/Memory/Download.antt =====
-- The download of the logbook through the driver's `oceanic_atom2_device_read`.
use libdc_swift.Prelude.{ℕ, ◌*◌, ◌/◌, ◌%◌, ◌≤◌, true, take, arith}
use libdc_swift.Libdc.{Stream}
use libdc_swift.Atom2.Types.{State, page_size}
use libdc_swift.Atom2.Memory.{device_read}
use libdc_swift.Atom2.Memory.Rounds.{IsValid}
use libdc_swift.Atom2.Memory.Cache.{Geometry, Truthful}
use libdc_swift.Atom2.Memory.Serving.{IsReady, ReadFails, device_read-IsMemory}
use libdc_swift.Common.Ring.{ringbuffer_distance}
use libdc_swift.Common.Base.{Base}
use libdc_swift.Common.Base.Dump.{IsMemory-Device}
use libdc_swift.Common.Logbook.{device_logbook, direction_of, start_of}
use libdc_swift.Common.Logbook.Entries.{entries}
use libdc_swift.Common.Logbook.Download.{IsLogbook, Uses, Downloads, device_logbook-Downloads}

module _ {W : Type 0} (iostream : Stream W) (g : Geometry) (mem : ℕ → ℕ) where
  -- Through the driver's page cache, its switch to the high memory and its transfers, the download
  -- of the logbook of an opened dive computer returns the entries before the fingerprint's as they
  -- are in the memory, or fails because a read command has failed, or writes over the start of its
  -- buffer because the bytes between the pointers are no whole number of entries and none of them
  -- equals the fingerprint. Whatever is returned, the cache is right afterwards, so that the next
  -- download returns the memory again. It is assumed that the device answers each read command for
  -- a page of its memory with that page, that the logbook lies in it on the page grid, that the
  -- pointer at which the download starts is in the logbook's ring, and that the allocations
  -- succeed.
  pub device_logbook-device_read :
      (d : Base) (begin end b e : ℕ) (s : State W)
      → IsValid g
      → Truthful iostream g mem
      → IsLogbook d
      → d.layout.rb_logbook_end ≤ g.memsize
      → Uses d.layout begin end (b, e)
      → IsReady iostream g mem s
      → let l = d.layout in
        let size = l.rb_logbook_entry_size in
        let n = ringbuffer_distance b e true l.rb_logbook_begin l.rb_logbook_end in
        Downloads mem
          (IsReady iostream g mem)
          (ReadFails iostream g mem)
          (device_read iostream)
          (n % size)
          (entries mem l.rb_logbook_begin l.rb_logbook_end
            (direction_of l)
            size
            (start_of l (b, e))
            (n / size))
          (take size d.fingerprint)
          (device_logbook (device_read iostream) true true d begin end s)
  device_logbook-device_read d begin end b e s v truthful logbook inside u ready =
      device_logbook-Downloads mem (IsReady iostream g mem) (ReadFails iostream g mem)
        (device_read iostream) d logbook begin end b e s
        (IsMemory-Device (IsReady iostream g mem) (ReadFails iostream g mem) mem g.memsize
          (device_read iostream) d.layout.rb_logbook_begin d.layout.rb_logbook_end
          (page_size * d.multipage) (device_read-IsMemory iostream g mem v truthful) (omega arith)
          inside)
        u ready
