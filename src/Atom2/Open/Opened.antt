-- ===== src/Atom2/Open/Opened.antt =====
-- What an opened device is like: its layout, its read mode and its cache.
use libdc_swift.Atom2.Open.Detected.{IsReadable, IsFresh, detect-IsReadable}
use libdc_swift.Prelude.{
  ℕ, zero, suc, ◌≡◌, refl, inl, inr, Bool, true, false, if◌then◌else◌, List, ok, err, bind, Result,
  Call, arith, bind-eq-ok, >>-eq-ok, Bool-cases, zero, ◌>>◌, return,
}
use libdc_swift.Libdc.{Stream, is_ble}
use libdc_swift.Common.Match.{common_match}
use libdc_swift.Atom2.Types.{Device, State, page_size}
use libdc_swift.Atom2.Session.{device_version, ble_handshake}
use libdc_swift.Atom2.Session.Unchanged.{
  Keeps, Keeps-refl, Keeps-trans, device_version-Keeps, ble_handshake-Keeps,
}
use libdc_swift.Atom2.Versions.{versions}
use libdc_swift.Atom2.Open.{
  set_up, detect, detect_layout, start, device_open, again_if_transient, pause, is_transient,
  ask_version, store_version, init, open_result,
}

module _ {W : Type 0} (iostream : Stream W) where
  set_up-dev : (model : ℕ) (s : State W) → (set_up iostream model s).1.dev ≡ s.dev
  unfolding set_up
  set_up-dev model s = ground arith

  again-Keeps :
      (next : Call (State W) (List ℕ)) (d : Device) (r : Result (List ℕ) × State W)
      → ((s : State W) → Keeps s.dev (next s).1.dev)
      → Keeps d r.1.dev
      → Keeps d (again_if_transient iostream next r).1.dev
  unfolding again_if_transient pause
  again-Keeps next d (ok v, s) h k = k
  again-Keeps next d (err e, s) h k = elim (Bool-cases (is_transient e)) [
    | inl t ↦ rw t (Keeps-trans k (h _))
    | inr f ↦ rw f k
  ]

  ask_version-Keeps : (left : ℕ) (s : State W) → Keeps s.dev (ask_version iostream left s).1.dev
  unfolding ask_version
  ask_version-Keeps zero s = device_version-Keeps iostream page_size s
  ask_version-Keeps (suc left) s =
      again-Keeps (ask_version iostream left) s.dev (device_version iostream page_size s)
        (ask_version-Keeps left) (device_version-Keeps iostream page_size s)

  IsFresh-Keeps : {d d' : Device} → IsFresh d → Keeps d d' → IsFresh d'
  IsFresh-Keeps f k = ground arith

  abbrev handshake_if_ble : Call (State W) (Unit {0})
  handshake_if_ble = if is_ble iostream.transport then ble_handshake iostream else return tt

  handshake-Keeps : (s : State W) → Keeps s.dev (handshake_if_ble s).1.dev
  handshake-Keeps s = elim (Bool-cases (is_ble iostream.transport)) [
    | inl t ↦ rw t (ble_handshake-Keeps iostream s)
    | inr f ↦ rw f (Keeps-refl s.dev)
  ]

  Keeps-eq :
      {A : Type 0} {d : Device} {r : Result A × State W} {a : Result A} {s : State W}
      → r ≡ (a, s)
      → Keeps d r.1.dev
      → Keeps d s.dev
  Keeps-eq e k = rw e at k

  Keeps-of_eq : {d d' : Device} → d' ≡ d → Keeps d d'
  Keeps-of_eq {d} e = rw e (Keeps-refl d)

  finish-IsReadable :
      (v : List ℕ) (s s1 s2 s3 s4 : State W) {u u' : Unit {0}} {s' : State W}
      → IsFresh s.dev
      → Keeps s.dev s1.dev
      → Keeps s1.dev s2.dev
      → store_version iostream v s2 ≡ (ok u, s3)
      → Keeps s3.dev s4.dev
      → detect_layout iostream s4 ≡ (ok u', s')
      → IsReadable s'.dev
  unfolding store_version detect_layout
  finish-IsReadable v s s1 s2 s3 s4 {s'} f k1 k2 stored k4 detected =
      let f2 = IsFresh-Keeps f (Keeps-trans k1 k2) in
      let e : record s2.dev { version = v } ≡ s3.dev = λ i. (stored i).1.dev in
      let f3 : IsFresh s3.dev = rw e at (fresh_with f2) in
      let found = common_match s4.dev.version versions in
      let over_ble = is_ble iostream.transport in
      let e' : detect over_ble found s4.dev ≡ s'.dev = λ i. (detected i).1.dev in
      rw e' at (detect-IsReadable over_ble found s4.dev (IsFresh-Keeps f3 k4))
    where
      fresh_with : {d : Device} → IsFresh d → IsFresh (record d { version = v })
      fresh_with f = ground arith

  start-IsReadable :
      (model : ℕ) (s : State W) {u : Unit {0}} {s' : State W}
      → IsFresh s.dev
      → start iostream model s ≡ (ok u, s')
      → IsReadable s'.dev
  unfolding start store_version detect_layout
  start-IsReadable model s {s'} f h =
      let attempts = if is_ble iostream.transport then 2 else 0 in
      let greeting : Call (State W) (Unit {0}) = handshake_if_ble >> detect_layout iostream in
      let storing : List ℕ → Call (State W) (Unit {0}) =
        λ v. store_version iostream v >> greeting in
      let asking : Call (State W) (Unit {0}) =
        λ t. bind (ask_version iostream attempts t) storing in
      let (_, s1, e1, h1) = >>-eq-ok (set_up iostream model) asking s h in
      let (v, s2, e2, h2) = bind-eq-ok (ask_version iostream attempts s1) storing h1 in
      let (_, s3, e3, h3) = >>-eq-ok (store_version iostream v) greeting s2 h2 in
      let (_, s4, e4, h4) = >>-eq-ok handshake_if_ble (detect_layout iostream) s3 h3 in
      let k = Keeps-eq e2 (ask_version-Keeps attempts s1) in
      let k' = Keeps-eq e4 (handshake-Keeps s3) in
      finish-IsReadable v s s1 s2 s3 s4 f (Keeps-eq e1 (Keeps-of_eq (set_up-dev model s))) k e3 k'
        h4

  -- A device that was opened is that of a successful start, and so is the environment.
  pub opened :
      {d : Device} {env' : W} (r : Result (Unit {0}) × State W)
      → (open_result iostream r) ≡ (ok d, env')
      → (u : Unit {0}) × (r.0 ≡ ok u) × (r.1.dev ≡ d) × (r.1.env ≡ env')
  unfolding open_result
  opened (ok u, s) h = (u, refl, ground arith, ground arith)
  opened (err e, s) h = absurd (cc)

  -- A device that was opened has one of the driver's layouts, a page size for which there is a read
  -- command, and an empty page cache, whatever the transport, the version string and the repeated
  -- attempts were.
  pub device_open-IsReadable :
      (memory : Bool) (base : Device) (model : ℕ) (env : W) {d : Device} {env' : W}
      → device_open iostream memory base model env ≡ (ok d, env')
      → IsReadable d
  unfolding device_open init
  device_open-IsReadable false base model env h = absurd (cc)
  device_open-IsReadable true base model env h =
      let s : State W = record { dev = init base model; env = env } in
      let r = start iostream model s in
      let (u, done, same, _) = opened r h in
      let e : r ≡ (ok u, r.1) = λ i. (done i, r.1) in
      rw same at (start-IsReadable model s (ground arith) e)
