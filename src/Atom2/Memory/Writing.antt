-- ===== src/Atom2/Memory/Writing.antt =====
-- What `oceanic_atom2_device_write` leaves of the page cache.
use libdc_swift.Prelude.{
  ℕ, zero, suc, ◌+◌, ◌%◌, ◌≡◌, inl, inr, List, ◌++◌, ok, err, Result, Call, bind, Bool-cases, ltb,
  length, eq→==, take, drop, [], ◌∷◌,
}
use libdc_swift.Libdc.{Stream}
use libdc_swift.Atom2.Types.{Device, State, ack, page_size, u32}
use libdc_swift.Atom2.Packet.{transfer}
use libdc_swift.Atom2.Session.{simple}
use libdc_swift.Atom2.Session.Unchanged.{Keeps, Keeps-refl, Keeps-trans, transfer-Keeps}
use libdc_swift.Atom2.Memory.{drop_cache, prepare_bytes, write_rounds, device_write}
use libdc_swift.Atom2.Memory.Rounds.{IsValid}
use libdc_swift.Atom2.Memory.Cache.{Geometry, CacheOk}
use libdc_swift.Atom2.Memory.Reading.{CacheOk-empty}

module _ {W : Type 0} (iostream : Stream W) where
  bind-Keeps :
      {A B : Type 0} (d : Device) (p : Result A × State W) (f : A → Call (State W) B)
      → Keeps d p.1.dev
      → ((a : A) (s : State W) → Keeps s.dev (f a s).1.dev)
      → Keeps d (bind p f).1.dev
  bind-Keeps d (ok a, s) f h k = Keeps-trans h (k a s)
  bind-Keeps d (err e, s) f h k = h

  write_rounds-Keeps :
      (fuel address : ℕ) (left : List ℕ) (s : State W)
      → Keeps s.dev (write_rounds iostream fuel address left s).1.dev
  unfolding write_rounds
  write_rounds-Keeps zero address left s = Keeps-refl s.dev
  write_rounds-Keeps (suc fuel) address left s = elim (Bool-cases (ltb 0 (length left))) [
    | inr end ↦ rw end (Keeps-refl s.dev)
    | inl more ↦
        let prepare = simple (prepare_bytes address) ack in
        let page = take page_size left in
        let data_packet = simple (page ++ iostream.checksum_add_uint8 page ∷ []) ack in
        rw more (
          bind-Keeps s.dev (transfer iostream prepare s) _ (transfer-Keeps iostream prepare s)
            (λ _ s1.
              bind-Keeps s1.dev (transfer iostream data_packet s1) _
                (transfer-Keeps iostream data_packet s1)
                (λ _ s2.
                  write_rounds-Keeps fuel (u32 (address + page_size)) (drop page_size left) s2)))
  ]

  -- After a write to whole pages the page cache is empty, and so right for whatever the memory holds
  -- then, whether or not the write has succeeded.
  pub device_write-CacheOk :
      (g : Geometry) (mem : ℕ → ℕ) (address : ℕ) (bytes : List ℕ) (s : State W)
      → IsValid g
      → address % 16 ≡ 0
      → length bytes % 16 ≡ 0
      → CacheOk iostream g mem (device_write iostream address bytes s).1.dev
  unfolding device_write drop_cache
  device_write-CacheOk g mem address bytes s v a b =
      rw (eq→== a, eq→== b)
        (CacheOk-empty iostream g mem
          (write_rounds iostream (length bytes) address bytes (drop_cache s)).1.dev v
          (write_rounds-Keeps (length bytes) address bytes (drop_cache s)).same_page)
