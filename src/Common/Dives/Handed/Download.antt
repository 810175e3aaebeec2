-- ===== src/Common/Dives/Handed/Download.antt =====
-- The download of the profiles through the stream of their ring.
use libdc_swift.Prelude.{
  ℕ, ◌*◌, refl, inl, inr, Bool, true, false, List, ok, err, Error, Result, Call, arith,
  if◌then◌else◌, data_format, overrun, length, ◌==◌,
}
use libdc_swift.Libdc.{DevInfo}
use libdc_swift.Atom2.Types.{page_size}
use libdc_swift.Atom2.Layouts.Shape.{Layout}
use libdc_swift.Common.RbStream.{RbStream, backward, rbstream_read}
use libdc_swift.Common.RbStream.Standing.{IsPacketed, IsBefore, Device}
use libdc_swift.Common.RbStream.Opening.{rbstream_new-Stands}
use libdc_swift.Common.Profile.{Scan, first_pass, runs_over, entries_from}
use libdc_swift.Common.Profile.Stretch.{IsRing, InRing}
use libdc_swift.Common.Dives.{download, device_profile}
use libdc_swift.Common.Base.{Base}
use libdc_swift.Common.Foreach.{Allocations, no_stream, open_profiles, call_back, profiles_of}
use libdc_swift.Common.Dives.Handed.{Accepts, second_pass-Kept}

-- The entries of a logbook, the last one first.
abbrev pub entries_of : Layout → List ℕ → List (List ℕ)
entries_of l logbook =
    entries_from (length logbook) l.rb_logbook_entry_size (length logbook) logbook

module _ {W : Type 0} (keeps : W → Type 0) (failing : Error → Type 0) (mem : ℕ → ℕ)
    (read : ℕ → ℕ → Call W (List ℕ)) (emit_vendor : List ℕ → W → W) (emit_devinfo : DevInfo → W → W)
    (callback : List ℕ → W → Bool × W) (l : Layout) (r : IsRing l) (es : List (List ℕ)) (packet : ℕ)
    (g : IsPacketed 16 l.rb_profile_begin l.rb_profile_end packet)
    (device : Device keeps failing mem 16 l.rb_profile_begin l.rb_profile_end packet read)
    (calls : Accepts keeps failing mem read emit_vendor emit_devinfo callback l r es) where
  download-Kept :
      (open_stream : ℕ → Call (RbStream × W) (Unit {0})) (memory : Bool) (sc : Scan)
      (status : Result (Unit {0})) (s : RbStream) (w : W)
      → InRing l sc.profile_end
      → IsBefore mem 16 l.rb_profile_begin l.rb_profile_end packet s sc.profile_end
      → keeps w
      → keeps
          (download open_stream
            (rbstream_read read)
            (call_back read emit_vendor emit_devinfo callback)
            memory
            l
            es
            sc
            status
            (ok tt, (s, w))).1.1
  unfolding download
  download-Kept open_stream true sc status s w inside stands k =
      second_pass-Kept keeps failing mem read emit_vendor emit_devinfo callback l r es packet g
        device calls open_stream es (λ e m. m) sc.profile_size sc.profile_end status s w inside
        (sc.profile_end, stands, inside, refl) k
  download-Kept open_stream false sc status s w inside stands k = k

module _ {W : Type 0} (keeps : W → Type 0) (failing : Error → Type 0) (mem : ℕ → ℕ)
    (read : ℕ → ℕ → Call W (List ℕ)) (emit_vendor : List ℕ → W → W) (emit_devinfo : DevInfo → W → W)
    (callback : List ℕ → W → Bool × W) where
  open_profiles-Kept :
      (d : Base) (r : IsRing d.layout) (memory buffer : Bool) (es : List (List ℕ)) (sc : Scan)
      (status : Result (Unit {0})) (w : W)
      → Device keeps failing mem 16 d.layout.rb_profile_begin d.layout.rb_profile_end
          (page_size * d.multipage)
          read
      → Accepts keeps failing mem read emit_vendor emit_devinfo callback d.layout r es
      → keeps w
      → keeps
          (download
            (open_profiles read emit_vendor emit_devinfo callback memory d)
            (rbstream_read read)
            (call_back read emit_vendor emit_devinfo callback)
            buffer
            d.layout
            es
            sc
            status
            (open_profiles read emit_vendor emit_devinfo callback memory d sc.profile_end
              (no_stream, w))).1.1
  unfolding open_profiles download
  open_profiles-Kept d r memory buffer es sc status w device calls k =
      let l = d.layout in
      elim (rbstream_new-Stands mem memory page_size (page_size * d.multipage) l.rb_profile_begin
        l.rb_profile_end sc.profile_end backward (omega (arith, r.small))) [
          | inl refused ↦ rw refused.1 k
          | inr (v, inl failed) ↦ rw failed.1 k
          | inr (v, inr (_, (s, made, packeted, stands))) ↦ rw made (
              download-Kept keeps failing mem read emit_vendor emit_devinfo callback l r es
                (page_size * d.multipage) packeted device calls
                (open_profiles read emit_vendor emit_devinfo callback memory d) buffer sc status s w
                (v.not_below, v.not_above) stands k)
        ]

  either :
      (b : Bool) (x y : Result (Unit {0}) × (RbStream × W))
      → keeps x.1.1
      → keeps y.1.1
      → keeps (if b then x else y).1.1
  either true x y h k = h
  either false x y h k = k

  -- The callback gets only dives: an entry of the logbook and, behind it, bytes of the memory from
  -- the begin pointer of that entry on, round the ring of the profiles, as many as the profile
  -- has, without its padding where the layout has a high memory. Stated for whatever holds of the
  -- state: what the reads of the device keep, and the callback keeps on such dives, the download
  -- of the profiles keeps on every path, whatever bytes the logbook has; it ends with the error
  -- `overrun` where the source leaves a logbook of no whole number of entries. It is assumed that
  -- the ring of the profiles does not start at 0 and ends within 1 GiB, and that a read of a
  -- packet of that ring at the start of a page returns the memory or fails.
  pub profiles_of-IsDive :
      (a : Allocations) (d : Base) (r : IsRing d.layout) (logbook : List ℕ) (w : W)
      → Device keeps failing mem 16 d.layout.rb_profile_begin d.layout.rb_profile_end
          (page_size * d.multipage)
          read
      → Accepts keeps failing mem read emit_vendor emit_devinfo callback d.layout r
          (entries_of d.layout logbook)
      → keeps w
      → keeps (profiles_of read emit_vendor emit_devinfo callback a d logbook w).1
  unfolding profiles_of device_profile
  profiles_of-IsDive a d r logbook w device calls k =
      let sc = first_pass d.layout logbook in
      let entries = entries_of d.layout logbook in
      let status : Result (Unit {0}) = if sc.bad_format then err data_format else ok tt in
      let opened =
        open_profiles read emit_vendor emit_devinfo callback a.profile_stream d sc.profile_end
          (no_stream, w) in
      let downloaded =
        download (open_profiles read emit_vendor emit_devinfo callback a.profile_stream d)
          (rbstream_read read) (call_back read emit_vendor emit_devinfo callback) a.profiles
          d.layout entries sc status opened in
      either (runs_over d.layout logbook sc) (err overrun, (no_stream, w))
        (if sc.profile_size == 0 then (status, (no_stream, w)) else downloaded) k
        (either (sc.profile_size == 0) (status, (no_stream, w)) downloaded k
          (open_profiles-Kept d r a.profile_stream a.profiles entries sc status w device calls k))
