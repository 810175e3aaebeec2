-- ===== src/Atom2/Packet/Effects.antt =====
-- What an exchange and a transfer change of the device.
use Prim.Native.Nat.{max}
use mathlib.Core.Path.{subst}
use libdc_swift.Prelude.{
  ℕ, zero, suc, ◌+◌, ◌≤◌, ◌≡◌, Bool, true, false, inl, inr, Bool-cases, List, ok, err, Result,
  arith,
}
use libdc_swift.Libdc.{Stream}
use libdc_swift.Atom2.Types.{Device, State, u32, max_delay}
use libdc_swift.Atom2.Packet.{
  Command, check_cancelled, wait_delay, send, receive, next_sequence, exchange, packet, retry,
  back_off, attempts, transfer, is_retryable,
}

abbrev pub is_ok : {A : Type 0} → Result A → Bool
is_ok (ok a) = true
is_ok (err e) = false

-- The sequence number after a call with the result `r`.
abbrev pub sequence_after : {A : Type 0} → Result A → ℕ → ℕ
sequence_after (ok a) n = u32 (n + 1)
sequence_after (err e) n = n

-- The device after a call with the result `r` and the delay `delay`: nothing else has changed.
abbrev pub after : {A : Type 0} → Result A → ℕ → Device → Device
after r delay d = record d { sequence = sequence_after r d.sequence; delay = delay }

-- A call on a device `d` ended with `p`: the sequence number counts a success, and the delay has
-- grown by at most `n`, and not beyond 16.
abbrev pub Effect : {W A : Type 0} → ℕ → Device → Result A × State W → Type 0
Effect n d (r, s) =
    (s.dev ≡ after r s.dev.delay d)
    × (d.delay ≤ s.dev.delay)
    × (s.dev.delay ≤ d.delay + n)
    × (s.dev.delay ≤ max d.delay max_delay)

module _ {W : Type 0} (iostream : Stream W) where
  wait_delay-dev : (s : State W) → (wait_delay iostream s).1.dev ≡ s.dev
  unfolding wait_delay
  wait_delay-dev s = ground arith

  packet-dev :
      (c : Command) (s : State W)
      → (packet iostream c s).1.dev
        ≡ record s.dev { sequence = sequence_after (packet iostream c s).0 s.dev.sequence }
  unfolding packet exchange check_cancelled wait_delay send receive next_sequence
  packet-dev c s = ground arith

  packet-Effect : (n : ℕ) (c : Command) (s : State W) → Effect n s.dev (packet iostream c s)
  packet-Effect n c s = omega_effect (packet iostream c s) (packet-dev c s)
    where
      omega_effect :
          (p : Result (List ℕ) × State W)
          → p.1.dev ≡ record s.dev { sequence = sequence_after p.0 s.dev.sequence }
          → Effect n s.dev p
      omega_effect (r, s') h = ground arith

  back_off-Effect :
      (n : ℕ) (s : State W) (p : Result (List ℕ) × State W)
      → Effect n (back_off iostream s).dev p
      → Effect (suc n) s.dev p
  unfolding back_off
  back_off-Effect n s (r, s') h = ground arith

  retry-Effect :
      (n : ℕ) (d : Device) (p : Result (List ℕ) × State W)
      (again : State W → Result (List ℕ) × State W)
      → Effect n d p
      → p.1.dev ≡ record d { sequence = sequence_after p.0 d.sequence }
      → ((s : State W) → s.dev ≡ d → Effect n d (again s))
      → Effect n d (retry p again)
  unfolding retry
  retry-Effect n d (ok a, s) again h e k = h
  retry-Effect n d (err x, s) again h e k = elim (Bool-cases (is_retryable x)) [
    | inl t ↦ rw t (k s e)
    | inr f ↦ rw f h
  ]

  attempts-Effect :
      (left : ℕ) (c : Command) (s : State W) → Effect left s.dev (attempts iostream left c s)
  unfolding attempts
  attempts-Effect zero c s = packet-Effect 0 c s
  attempts-Effect (suc left) c s =
      retry-Effect (suc left) s.dev (packet iostream c s) _ (packet-Effect (suc left) c s)
        (packet-dev c s)
        (λ t e.
          subst (λ d. Effect (suc left) d (attempts iostream left c (back_off iostream t))) e
            (back_off-Effect left t (attempts iostream left c (back_off iostream t))
              (attempts-Effect left c (back_off iostream t))))

  -- A transfer changes of the device the sequence number, by one if it succeeds and not at all if
  -- it fails, and the delay between packets, which grows by at most one for each of the two
  -- retries and to at most 16 (a larger delay stays).
  pub transfer-Effect : (c : Command) (s : State W) → Effect 2 s.dev (transfer iostream c s)
  unfolding transfer
  transfer-Effect c s = attempts-Effect 2 c s
