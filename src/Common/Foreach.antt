-- ===== src/Common/Foreach.antt =====
-- The download of the dives: `oceanic_common_device_foreach` of
-- libdivecomputer/src/oceanic_common.c, with the streams of both rings.
pub mod New
mod Tests
use libdc_swift.Prelude.{
  ℕ, ◌+◌, ◌*◌, Bool, true, false, ◌&&◌, List, [], ◌==◌, if◌then◌else◌, length, Call, Result, ok,
  err, ◌>>=◌, ◌>>◌, return, fail, no_memory,
}
use libdc_swift.Libdc.{DevInfo}
use libdc_swift.Atom2.Types.{page_size}
use libdc_swift.Common.RbStream.{RbStream, backward, rbstream_new, rbstream_read}
use libdc_swift.Common.Base.{Base, Pointers, device_devinfo, device_pointers}
use libdc_swift.Common.Logbook.{device_logbook}
use libdc_swift.Common.Dives.{device_profile}

-- Which of the allocations succeed: the buffer of the logbook, its bytes and its stream, and the
-- stream and the bytes of the profiles.
pub record Allocations : Type 0 where
  pub buffer : Bool
  pub logbook : Bool
  pub logbook_stream : Bool
  pub profile_stream : Bool
  pub profiles : Bool

-- What stands for a stream before there is one.
abbrev pub no_stream : RbStream
no_stream = record {
  direction = backward;
  pagesize = 0;
  packetsize = 0;
  begin = 0;
  end = 0;
  address = 0;
  offset = 0;
  available = 0;
  skip = 0;
  cache = [];
}

-- `read` is `dc_device_read` on the device, `callback` the callback of the dives, `emit_vendor` and
-- `emit_devinfo` those of the events.
module _ {W : Type 0} (read : ℕ → ℕ → Call W (List ℕ)) (emit_vendor : List ℕ → W → W)
    (emit_devinfo : DevInfo → W → W) (callback : List ℕ → W → Bool × W) where
  -- The stream of the profiles, backwards from the end of the last one.
  unfoldable pub opened : RbStream → W → Result RbStream → Result (Unit {0}) × (RbStream × W)
  opened s w (ok s') = (ok tt, (s', w))
  opened s w (err e) = (err e, (s, w))

  unfoldable pub open_profiles : Bool → Base → ℕ → Call (RbStream × W) (Unit {0})
  unfolding opened
  open_profiles memory d end (s, w) = opened s w (
      rbstream_new memory page_size (page_size * d.multipage) d.layout.rb_profile_begin
        d.layout.rb_profile_end end backward)

  unfoldable pub call_back : List ℕ → RbStream × W → Bool × (RbStream × W)
  call_back dive (s, w) = let (more, w') = callback dive w in (more, (s, w'))

  -- `oceanic_common_device_profile` on the device, whose stream is freed.
  unfoldable pub profiles_of : Allocations → Base → List ℕ → Call W (Unit {0})
  unfolding open_profiles call_back
  profiles_of a d logbook w =
      let (r, s) =
        device_profile (open_profiles a.profile_stream d) (rbstream_read read) call_back a.profiles
          d.layout logbook (no_stream, w) in
      (r, s.1)

  -- From the pointers on: the logbook, and the profiles if there are new dives.
  pub dives_of : Allocations → Base → Pointers → Call W (Unit {0})
  unfolding profiles_of
  dives_of a d p = do
    logbook ← device_logbook read a.logbook a.logbook_stream d p.rb_logbook_begin p.rb_logbook_end
    if length logbook == 0 then return tt else profiles_of a d logbook

  unfoldable pub device_foreach : Allocations → Base → Call W (Unit {0})
  unfolding dives_of
  device_foreach a d =
      let l = d.layout in
      let no_rings =
        (l.rb_logbook_begin == l.rb_logbook_end) && (l.rb_profile_begin == l.rb_profile_end) in
      let download : Call W (Unit {0}) = do
        device_devinfo read emit_vendor emit_devinfo d
        p ← device_pointers read l
        if a.buffer then dives_of a d p else fail no_memory
      in if no_rings then return tt else download
