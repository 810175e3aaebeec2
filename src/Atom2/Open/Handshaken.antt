-- ===== src/Atom2/Open/Handshaken.antt =====
-- The handshake in the opening over BLE.
use mathlib.Core.Path.{subst}
use libdc_swift.Prelude.{
  ℕ, zero, suc, ◌≡◌, refl, ◌∙◌, sym, true, false, inl, inr, return, Bool, Bool-cases, List, [], ◌∷◌,
  Result, ok, err, bind, Call, bind-eq-ok, >>-eq-ok, ◌>>◌, if◌then◌else◌,
}
use libdc_swift.Libdc.{Stream, is_ble}
use libdc_swift.Atom2.Types.{Device, State}
use libdc_swift.Atom2.Packet.{Command, transfer}
use libdc_swift.Atom2.Packet.Answer.{IsAnswered, transfer_sound}
use libdc_swift.Atom2.Session.{ble_handshake, device_version}
use libdc_swift.Atom2.Session.Handshake.{Passed, ble_handshake-Passed}
use libdc_swift.Atom2.Open.{
  set_up, detect_layout, start, device_open, ask_version, store_version, init, again_if_transient,
  is_transient, pause,
}
use libdc_swift.Atom2.Open.Opened.{opened}

module _ {W : Type 0} (iostream : Stream W) where
  -- `oceanic_atom2_device_version` over BLE, as it is answered.
  abbrev version_command : Command
  version_command = record { bytes = 0x84 ∷ []; ack = 0x5A; asize = 16; crc_size = 1 }

  -- From the state `s` of the driver: the line is set up, VERSION is answered after at most two
  -- repetitions, and directly after its answer the handshake begins, which passes and ends in `env`.
  pub record Handshaken (model : ℕ) (s : State W) (env : W) : Type 0 where
    pub ready : State W
    pub version : List ℕ
    pub greeted : State W
    pub after : State W
    pub set : set_up iostream model s ≡ (ok tt, ready)
    pub asked : ask_version iostream 2 ready ≡ (ok version, greeted)
    pub answered : IsAnswered iostream version_command version greeted
    pub passed : Passed iostream greeted.env after
    pub at_end : env ≡ after.env

  repeated-IsAnswered :
      (next : Call (State W) (List ℕ)) (s : State W) (p : Result (List ℕ) × State W) {v : List ℕ}
      {s' : State W}
      → is_ble iostream.transport ≡ true
      → transfer iostream version_command s ≡ p
      → ((t : State W) → next t ≡ (ok v, s') → IsAnswered iostream version_command v s')
      → again_if_transient iostream next p ≡ (ok v, s')
      → IsAnswered iostream version_command v s'
  unfolding again_if_transient pause
  repeated-IsAnswered next s (ok w, t) over_ble e older h =
      transfer_sound iostream version_command s over_ble (e ∙ h)
  repeated-IsAnswered next s (err e, t) over_ble _ older h = elim (Bool-cases (is_transient e)) [
    | inl passing ↦ older (record t { env = iostream.sleep 2000 t.env }) (rw passing at h)
    | inr final ↦ absurd (cc (rw final at h))
  ]

  ask_version-IsAnswered :
      (left : ℕ) (s : State W) {v : List ℕ} {s' : State W}
      → is_ble iostream.transport ≡ true
      → ask_version iostream left s ≡ (ok v, s')
      → IsAnswered iostream version_command v s'
  unfolding ask_version device_version
  ask_version-IsAnswered zero s over_ble h = transfer_sound iostream version_command s over_ble h
  ask_version-IsAnswered (suc left) s over_ble h =
      repeated-IsAnswered (ask_version iostream left) s (transfer iostream version_command s)
        over_ble refl (λ t. ask_version-IsAnswered left t over_ble) h

  if_ble-Passed :
      (s : State W) {u : Unit {0}} {s' : State W}
      → is_ble iostream.transport ≡ true
      → (if is_ble iostream.transport then ble_handshake iostream else return tt) s ≡ (ok u, s')
      → Passed iostream s.env s'
  if_ble-Passed s over_ble h = ble_handshake-Passed iostream s over_ble (rw over_ble at h)

  start-Handshaken :
      (model : ℕ) (s : State W) {u : Unit {0}} {s' : State W}
      → is_ble iostream.transport ≡ true
      → start iostream model s ≡ (ok u, s')
      → Handshaken model s s'.env
  unfolding start detect_layout store_version
  start-Handshaken model s {s'} over_ble h =
      let over = is_ble iostream.transport in
      let shaking : Call (State W) (Unit {0}) =
        if over then ble_handshake iostream else return tt in
      let greeting : Call (State W) (Unit {0}) = shaking >> detect_layout iostream in
      let storing : List ℕ → Call (State W) (Unit {0}) =
        λ v. store_version iostream v >> greeting in
      let asking : Call (State W) (Unit {0}) =
        λ t. bind (ask_version iostream (if over then 2 else 0) t) storing in
      let (_, s1, e1, h1) = >>-eq-ok (set_up iostream model) asking s h in
      let (v, s2, e2, h2) =
        bind-eq-ok (ask_version iostream (if over then 2 else 0) s1) storing h1 in
      let (_, s3, e3, h3) = >>-eq-ok (store_version iostream v) greeting s2 h2 in
      let (_, s4, e4, h4) = >>-eq-ok shaking (detect_layout iostream) s3 h3 in
      let asked : ask_version iostream 2 s1 ≡ (ok v, s2) = rw over_ble at e2 in
      record {
        ready = s1;
        version = v;
        greeted = s2;
        after = s4;
        set = e1;
        asked = asked;
        answered = ask_version-IsAnswered 2 s1 over_ble asked;
        passed =
            subst (λ w. Passed iostream w s4) (sym (λ i. (e3 i).1.env))
              (if_ble-Passed s3 over_ble e4);
        at_end = sym (λ i. (h4 i).1.env);
      }

  -- Over BLE a device is opened only after its handshake: the line is set up, then the device
  -- answers VERSION, and directly after that answer it acknowledges the passphrase made of its
  -- name, unless the stream says there that it has no name for the device; the opening ends where
  -- this handshake does. A device that refuses the handshake, by whatever answer, is not opened.
  pub device_open-Handshaken :
      (memory : Bool) (base : Device) (model : ℕ) (env : W) {d : Device} {env' : W}
      → is_ble iostream.transport ≡ true
      → device_open iostream memory base model env ≡ (ok d, env')
      → Handshaken model (record { dev = init base model; env = env }) env'
  unfolding device_open
  device_open-Handshaken false base model env over_ble h = absurd (cc)
  device_open-Handshaken true base model env over_ble h =
      let s : State W = record { dev = init base model; env = env } in
      let r = start iostream model s in
      let (u, done, _, same) = opened iostream r h in
      let e : r ≡ (ok u, r.1) = λ i. (done i, r.1) in
      rw same at (start-Handshaken model s over_ble e)
