-- ===== src/Atom2/Packet/Tries.antt =====
-- Which attempts a transfer makes.
use libdc_swift.Prelude.{
  ℕ, zero, suc, ◌+◌, ◌≤◌, ◌<◌, ◌≡◌, refl, ◌⊎◌, inl, inr, Bool-cases, true, List, ok, err, Error,
  Result, timeout, protocol, arith,
}
use libdc_swift.Libdc.{Stream, input}
use libdc_swift.Atom2.Types.{State}
use libdc_swift.Atom2.Packet.{Command, packet, is_retryable, retry, back_off, attempts, transfer}

-- The errors that a repetition may cure.
abbrev pub IsPassing : Error → Type 0
IsPassing e = (e ≡ timeout) ⊎ (e ≡ protocol)

module _ {W : Type 0} (iostream : Stream W) (c : Command) where
  -- Between two attempts: 100 ms have passed, the input is thrown away, and the delay before a
  -- command is longer by one, up to 16.
  pub record Waited (s s' : State W) : Type 0 where
    pub purged : s'.env ≡ iostream.purge input (iostream.sleep 100 s.env)
    pub slower :
        ((s.dev.delay < 16) × (s'.dev.delay ≡ s.dev.delay + 1))
        ⊎ ((16 ≤ s.dev.delay) × (s'.dev.delay ≡ s.dev.delay))
    pub same_sequence : s'.dev.sequence ≡ s.dev.sequence

  -- Attempts from a state to the outcome of the last one, with a number of repetitions allowed.
  pub data Tries : ℕ → State W → Result (List ℕ) × State W → Type 0 where
    answered :
        {left : ℕ} {s s' : State W} {answer : List ℕ}
        → packet iostream c s ≡ (ok answer, s')
        → Tries left s (ok answer, s')
    given_up :
        {left : ℕ} {s s' : State W} {e : Error}
        → packet iostream c s ≡ (err e, s')
        → (IsPassing e → left ≡ 0)
        → Tries left s (err e, s')
    repeated :
        {left : ℕ} {s failed waited : State W} {e : Error} {r : Result (List ℕ) × State W}
        → packet iostream c s ≡ (err e, failed)
        → IsPassing e
        → Waited failed waited
        → Tries left waited r
        → Tries (suc left) s r

  back_off-Waited : (s : State W) → Waited s (back_off iostream s)
  unfolding back_off
  back_off-Waited s = record { purged = refl; slower = ground arith; same_sequence = refl }

  is_retryable-IsPassing : (e : Error) → is_retryable e ≡ true → IsPassing e
  unfolding is_retryable
  is_retryable-IsPassing timeout h = inl refl
  is_retryable-IsPassing protocol h = inr refl
  is_retryable-IsPassing _ h = absurd (cc)

  IsPassing-is_retryable : (e : Error) → IsPassing e → is_retryable e ≡ true
  unfolding is_retryable
  IsPassing-is_retryable e (inl h) = rw h refl
  IsPassing-is_retryable e (inr h) = rw h refl

  retry-Tries :
      (left : ℕ) (s : State W) (p : Result (List ℕ) × State W)
      → packet iostream c s ≡ p
      → ((t : State W) → Tries left t (attempts iostream left c t))
      → Tries (suc left) s (retry p (λ t. attempts iostream left c (back_off iostream t)))
  unfolding retry
  retry-Tries left s (ok answer, t) h next = answered h
  retry-Tries left s (err e, t) h next = elim (Bool-cases (is_retryable e)) [
    | inl again ↦ rw again (
        repeated h (is_retryable-IsPassing e again) (back_off-Waited t)
          (next (back_off iostream t)))
    | inr final ↦ rw final (given_up h (λ p. absurd (cc (IsPassing-is_retryable e p, final))))
  ]

  attempts-Tries : (left : ℕ) (s : State W) → Tries left s (attempts iostream left c s)
  unfolding attempts
  attempts-Tries zero s = once (packet iostream c s) refl
    where
      once : (p : Result (List ℕ) × State W) → packet iostream c s ≡ p → Tries 0 s p
      once (ok answer, t) h = answered h
      once (err e, t) h = given_up h (λ p. refl)
  attempts-Tries (suc left) s = retry-Tries left s (packet iostream c s) refl (attempts-Tries left)

  -- A transfer is a chain of at most three exchanges, and ends as the last one does. It is repeated
  -- exactly after a timeout or a protocol error, and not after any other error, a cancelled
  -- download or a NAK among them; it gives up on those two only after the third exchange. Before
  -- each repetition it sleeps for 100 ms and purges the input, the delay before a command grows by
  -- one up to its limit, and the sequence number stays.
  pub transfer-Tries : (s : State W) → Tries 2 s (transfer iostream c s)
  unfolding transfer
  transfer-Tries s = attempts-Tries 2 s
