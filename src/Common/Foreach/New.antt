-- ===== src/Common/Foreach/New.antt =====
-- Which dives a whole download hands over.
use libdc_swift.Prelude.{
  ℕ, ◌+◌, ◌*◌, ◌%◌, ◌≤◌, ◌≡◌, refl, ap, ◌∙◌, ◌⊎◌, inl, inr, Bool, true, false, ◌&&◌, List, [], take,
  length, ok, err, Error, Result, Call, bind, ◌>>=◌, return, arith, ltb, ◌==◌, if◌then◌else◌,
  Bool-cases, slice, no_memory, fail,
}
use libdc_swift.Libdc.{DevInfo}
use libdc_swift.Atom2.Types.{page_size}
use libdc_swift.Common.RbStream.Standing.{Serves, Device}
use libdc_swift.Common.Base.{
  Base, Pointers, pointers_of, device_devinfo, device_pointers, devinfo_of,
}
use libdc_swift.Common.Base.Dump.{IsMemory, IsMemory-Device}
use libdc_swift.Common.Profile.Stretch.{IsRing}
use libdc_swift.Common.Logbook.{device_logbook}
use libdc_swift.Common.Logbook.Entries.{newer, joined, dives, logbook_of}
use libdc_swift.Common.Logbook.Download.{IsLogbook, Uses}
use libdc_swift.Common.Logbook.Outcomes.{between, Fetched, device_logbook-Fetched}
use libdc_swift.Common.Logbook.Listed.{entries_from-newer}
use libdc_swift.Common.Dives.Handed.{IsDive}
use libdc_swift.Common.Dives.Handed.Download.{entries_of, profiles_of-IsDive}
use libdc_swift.Common.Foreach.{Allocations, profiles_of, dives_of, device_foreach}

-- The areas of the layout lie in the memory.
pub record IsDownloadable (d : Base) : Type 0 where
  pub logbook : IsLogbook d
  pub profiles : IsRing d.layout
  pub logbook_inside : d.layout.rb_logbook_end ≤ d.layout.memsize
  pub profiles_inside : d.layout.rb_profile_end ≤ d.layout.memsize
  pub devinfo_aligned : d.layout.cf_devinfo % 16 ≡ 0
  pub devinfo_inside : d.layout.cf_devinfo + 16 ≤ d.layout.memsize
  pub pointers_aligned : d.layout.cf_pointers % 16 ≡ 0
  pub pointers_inside : d.layout.cf_pointers + 16 ≤ d.layout.memsize

logbook_of-cases :
    (fingerprint : List ℕ) (es : List (List ℕ))
    → (logbook_of fingerprint es ≡ []) ⊎ (logbook_of fingerprint es ≡ joined (newer fingerprint es))
unfolding logbook_of
logbook_of-cases fingerprint es = elim (Bool-cases (ltb 0 (dives (newer fingerprint es)))) [
  | inl some_dives ↦ inr (rw some_dives refl)
  | inr none ↦ inl (rw none refl)
]

-- The entries of the logbook that are new, between the pointers `begin` and `end`.
abbrev pub NewEntries : (ℕ → ℕ) → Base → ℕ → ℕ → List (List ℕ) → Type 0
NewEntries mem d begin end es =
    (q : ℕ × ℕ) × Uses d.layout begin end q
    × (es ≡ newer (take d.layout.rb_logbook_entry_size d.fingerprint) (between mem d q))

-- What the memory has at the place of the pointers.
abbrev pub stored_pointers : (ℕ → ℕ) → Base → Pointers
stored_pointers mem d = pointers_of d.layout (slice mem d.layout.cf_pointers 16)

module _ {W : Type 0} (keeps : W → Type 0) (failing : Error → Type 0) (mem : ℕ → ℕ)
    (read : ℕ → ℕ → Call W (List ℕ)) (emit_vendor : List ℕ → W → W) (emit_devinfo : DevInfo → W → W)
    (callback : List ℕ → W → Bool × W) (d : Base) (v : IsDownloadable d)
    (m : IsMemory keeps failing mem d.layout.memsize read) where
  logbook_device :
      Device keeps failing mem page_size d.layout.rb_logbook_begin d.layout.rb_logbook_end
        (page_size * d.multipage)
        read
  logbook_device =
      IsMemory-Device keeps failing mem d.layout.memsize read d.layout.rb_logbook_begin
        d.layout.rb_logbook_end (page_size * d.multipage) m (omega arith) v.logbook_inside

  -- The callback keeps what is to be kept, as far as it is called with new dives.
  abbrev pub AcceptsNew : ℕ → ℕ → Type 0
  AcceptsNew begin end =
      (es : List (List ℕ)) (dive : List ℕ) (w : W)
      → keeps w
      → NewEntries mem d begin end es
      → IsDive mem d.layout es dive
      → keeps (callback dive w).1

  profiles-Kept :
      (a : Allocations) (begin end : ℕ) (q : ℕ × ℕ) (logbook : List ℕ) (w : W)
      → AcceptsNew begin end
      → Uses d.layout begin end q
      → logbook
        ≡ joined (newer (take d.layout.rb_logbook_entry_size d.fingerprint) (between mem d q))
      → keeps w
      → keeps (profiles_of read emit_vendor emit_devinfo callback a d logbook w).1
  profiles-Kept a begin end q logbook w calls u same k =
      let l = d.layout in
      let listed =
        ap (entries_of l) same
        ∙ entries_from-newer mem l.rb_logbook_begin l.rb_logbook_end _ l.rb_logbook_entry_size _ _
            (take l.rb_logbook_entry_size d.fingerprint) v.logbook.some_entry in
      profiles_of-IsDive keeps failing mem read emit_vendor emit_devinfo callback a d v.profiles
        logbook w
        (IsMemory-Device keeps failing mem l.memsize read l.rb_profile_begin l.rb_profile_end
          (page_size * d.multipage) m (omega arith) v.profiles_inside)
        (λ dive w k is. calls (entries_of l logbook) dive w k (q, u, listed) is) k

  dives-Kept :
      (a : Allocations) (begin end : ℕ) (r : Result (List ℕ) × W)
      → AcceptsNew begin end
      → Fetched mem keeps failing read d v.logbook logbook_device begin end r
      → keeps
          (bind r (λ logbook.
            if length logbook == 0
            then return tt
            else profiles_of read emit_vendor emit_devinfo callback a d logbook)).1
  dives-Kept a begin end (err e, w) calls h = h
  dives-Kept a begin end (ok logbook, w) calls h = elim (Bool-cases (length logbook == 0)) [
    | inl empty ↦ rw empty h.1
    | inr some_bytes ↦ rw some_bytes (new_dives h.0 some_bytes)
  ]
    where
      fp : List ℕ
      fp = take d.layout.rb_logbook_entry_size d.fingerprint

      not_empty : logbook ≡ [] → length logbook ≡ 0
      not_empty e = ap length e

      new_dives :
          (logbook ≡ [])
            ⊎ ((q : ℕ × ℕ) × Uses d.layout begin end q
                × (logbook ≡ logbook_of fp (between mem d q)))
          → (length logbook == 0) ≡ false
          → keeps (profiles_of read emit_vendor emit_devinfo callback a d logbook w).1
      new_dives (inl e) some_bytes = absurd (ground (arith, not_empty e))
      new_dives (inr (q, u, same)) some_bytes = elim (logbook_of-cases fp (between mem d q)) [
        | inl none ↦ absurd (ground (arith, not_empty (same ∙ none)))
        | inr all ↦ profiles-Kept a begin end q logbook w calls u (same ∙ all) h.1
      ]

  bind-Kept :
      {A : Type 0} (r : Result A × W) (f : A → Call W (Unit {0}))
      → keeps r.1
      → ((x : A) (w : W) → keeps w → keeps (f x w).1)
      → keeps (bind r f).1
  bind-Kept (ok x, w) f k go = go x w k
  bind-Kept (err e, w) f k go = k

  pointers-Kept :
      (r : Result (List ℕ) × W) (f : Pointers → Call W (Unit {0}))
      → Serves keeps failing (slice mem d.layout.cf_pointers 16) r
      → ((w : W) → keeps w → keeps (f (stored_pointers mem d) w).1)
      → keeps (bind (bind r (λ bytes. return (pointers_of d.layout bytes))) f).1
  pointers-Kept (ok bytes, w) f h go = rw h.0 (go w h.1)
  pointers-Kept (err e, w) f h go = h.1

  info-Kept :
      (r : Result (List ℕ) × W) (f : List ℕ → W → W)
      → Serves keeps failing (slice mem d.layout.cf_devinfo 16) r
      → ((id : List ℕ) (w : W) → keeps w → keeps (f id w))
      → keeps (bind r (λ id w. (ok tt, f id w))).1
  info-Kept (ok id, w) f h go = go id w h.1
  info-Kept (err e, w) f h go = h.1

  with_buffer :
      (buffer : Bool) (a : Allocations) (w : W)
      → AcceptsNew (stored_pointers mem d).rb_logbook_begin (stored_pointers mem d).rb_logbook_end
      → keeps w
      → keeps
          ((if buffer
              then dives_of read emit_vendor emit_devinfo callback a d (stored_pointers mem d)
              else fail no_memory)
            w).1
  unfolding dives_of
  with_buffer true a w calls k =
      let p = stored_pointers mem d in
      dives-Kept a p.rb_logbook_begin p.rb_logbook_end
        (device_logbook read a.logbook a.logbook_stream d p.rb_logbook_begin p.rb_logbook_end w)
        calls
        (device_logbook-Fetched mem keeps failing read d v.logbook logbook_device a.logbook
          a.logbook_stream p.rb_logbook_begin p.rb_logbook_end w k)
  with_buffer false a w calls k = k

  -- Of a device whose areas lie in its memory (those of the device information and the pointers on
  -- the page grid, and the rings within the sizes of `IsLogbook` and `IsRing`), and that answers a
  -- read of whole pages with the memory or fails: whatever the bytes of the memory say, and
  -- whichever allocations fail, the callback is only called with dives. A dive is an entry of the
  -- logbook and the bytes of the memory at its profile. The entry is among the ones between the
  -- stored pointers that are met before the entry of the fingerprint; one pointer may be replaced
  -- by the other if it lies outside the ring. It is stated with a predicate on the state: if the
  -- reads and the events keep it, and the callback keeps it as far as it is called with such a
  -- dive, then the whole download keeps it, however it ends.
  -- Where the source would read or write outside a buffer, because the logbook's bytes are no
  -- whole number of entries, the download ends with the error `overrun`; nothing is said of what
  -- the source does from there on, which has no such check.
  pub device_foreach-IsDive :
      (a : Allocations) (w : W)
      → ((version : List ℕ) (w : W) → keeps w → keeps (emit_vendor version w))
      → ((info : DevInfo) (w : W) → keeps w → keeps (emit_devinfo info w))
      → AcceptsNew (stored_pointers mem d).rb_logbook_begin (stored_pointers mem d).rb_logbook_end
      → keeps w
      → keeps (device_foreach read emit_vendor emit_devinfo callback a d w).1
  unfolding device_foreach device_devinfo device_pointers
  device_foreach-IsDive a w told_version told_info calls k =
      let l = d.layout in
      elim (Bool-cases
        ((l.rb_logbook_begin == l.rb_logbook_end) && (l.rb_profile_begin == l.rb_profile_end))) [
          | inl none ↦ rw none k
          | inr rings ↦ rw rings (
              bind-Kept {A = Unit {0}} (device_devinfo read emit_vendor emit_devinfo d w)
                (λ u. device_pointers read l >>= rest)
                (info-Kept (read l.cf_devinfo page_size w) told
                  (m l.cf_devinfo 16 w k v.devinfo_aligned refl v.devinfo_inside)
                  (λ id w k.
                    told_info (devinfo_of d id) (emit_vendor d.version w)
                      (told_version d.version w k)))
                (λ u w k.
                  pointers-Kept (read l.cf_pointers page_size w) rest
                    (m l.cf_pointers 16 w k v.pointers_aligned refl v.pointers_inside)
                    (λ w k. with_buffer a.buffer a w calls k)))
        ]
    where
      told : List ℕ → W → W
      told id w = emit_devinfo (devinfo_of d id) (emit_vendor d.version w)

      rest : Pointers → Call W (Unit {0})
      rest p =
          if a.buffer then dives_of read emit_vendor emit_devinfo callback a d p else fail no_memory
