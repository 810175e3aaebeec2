-- ===== src/Atom2/Session/Unchanged.antt =====
-- The commands of a session and the page cache, the page size and the layout.
use libdc_swift.Prelude.{
  ℕ, ◌≡◌, inl, inr, List, length, take, ok, err, bind, Result, arith, Bool-cases, ltb, unsupported,
  return,
}
use libdc_swift.Libdc.{Stream}
use libdc_swift.Atom2.Types.{Device, State, on_env, page_size, ack}
use libdc_swift.Atom2.Packet.{Command, transfer}
use libdc_swift.Atom2.Packet.Effects.{Effect, transfer-Effect}
use libdc_swift.Atom2.Session.{
  device_version, ble_handshake, with_name, send_passphrase, simple, passphrase, c_string,
  as_io_error,
}

-- `d'` has the page cache, the page size, the layout and the model of `d`.
pub record Keeps (d d' : Device) : Type 0 where
  pub same_cache : d'.cache ≡ d.cache
  pub same_page : d'.cached_page ≡ d.cached_page
  pub same_highmem : d'.cached_highmem ≡ d.cached_highmem
  pub same_bigpage : d'.bigpage ≡ d.bigpage
  pub same_layout : d'.layout ≡ d.layout
  pub same_model : d'.model ≡ d.model

pub Keeps-refl : (d : Device) → Keeps d d
Keeps-refl d = ground arith

pub Keeps-trans : {d d' d'' : Device} → Keeps d d' → Keeps d' d'' → Keeps d d''
Keeps-trans h k = ground arith

Effect-Keeps :
    {W A : Type 0} (n : ℕ) (d : Device) (r : Result A × State W) → Effect n d r → Keeps d r.1.dev
Effect-Keeps n d (r, s) h = ground arith

module _ {W : Type 0} (iostream : Stream W) where
  pub transfer-Keeps : (c : Command) (s : State W) → Keeps s.dev (transfer iostream c s).1.dev
  transfer-Keeps c s = Effect-Keeps 2 s.dev (transfer iostream c s) (transfer-Effect iostream c s)

  pub device_version-Keeps :
      (size : ℕ) (s : State W) → Keeps s.dev (device_version iostream size s).1.dev
  unfolding device_version
  device_version-Keeps size s = elim (Bool-cases (ltb size page_size)) [
    | inl e ↦ rw e (Keeps-refl s.dev)
    | inr e ↦ rw e (transfer-Keeps _ s)
  ]

  send_passphrase-Keeps :
      (buf : List ℕ) (s : State W) → Keeps s.dev (send_passphrase iostream buf s).1.dev
  unfolding send_passphrase as_io_error
  send_passphrase-Keeps buf s = elim (Bool-cases (ltb (length (c_string (take 8 buf))) 8)) [
    | inl e ↦ rw e (Keeps-refl s.dev)
    | inr e ↦ rw e (after_transfer (transfer iostream command s) (transfer-Keeps command s))
  ]
    where
      command : Command
      command = simple (passphrase iostream (c_string (take 8 buf))) ack

      after_transfer :
          (r : Result (List ℕ) × State W)
          → Keeps s.dev r.1.dev
          → Keeps s.dev (bind (as_io_error r.0, r.1) (λ _. return tt)).1.dev
      after_transfer (ok a, s') h = h
      after_transfer (err e, s') h = h

  with_name-Keeps : (r : Result (List ℕ)) (s : State W) → Keeps s.dev (with_name iostream r s).1.dev
  unfolding with_name
  with_name-Keeps (ok buf) s = send_passphrase-Keeps buf s
  with_name-Keeps (err unsupported) s = Keeps-refl s.dev
  with_name-Keeps (err _) s = Keeps-refl s.dev

  pub ble_handshake-Keeps : (s : State W) → Keeps s.dev (ble_handshake iostream s).1.dev
  unfolding ble_handshake
  ble_handshake-Keeps s =
      with_name-Keeps (on_env (iostream.get_name 9) s).0 (on_env (iostream.get_name 9) s).1
