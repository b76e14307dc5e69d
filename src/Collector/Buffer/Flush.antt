-- ===== src/Collector/Buffer/Flush.antt =====
-- The outcomes of a flush (crates/tlapix-collector/src/buffer.rs), and the backoff between attempts.
use tlapix.Common.{
  ℕ, zero, suc, ◌+◌, ◌≤◌, ◌≡◌, ◌≢◌, ◌⊎◌, ◌↔◌, inl, inr, refl, ap, sym, subst, ◌∙◌, Bool, true,
  false, Option, none, some, [], ◌∷◌, Result, ok, err, Bool-cases, Option-cases, arith,
}
use tlapix.Common.Text.{is_empty}
use tlapix.Collector.Buffer.{
  Records, RetryBuffer, RetryState, AnalyzerSink, idle, reset, record_attempt, should_retry,
  put_back, attempted, sent, try_flush, time_until_retry,
}

pub put_back-nil : (l : Records) → put_back l [] ≡ l
unfolding put_back
put_back-nil [] = refl
put_back-nil (r ∷ l) = rw (put_back-nil l)

pair_eq : {A B : Type 0} {p : A × B} {a : A} → p.0 ≡ a → p ≡ (a, p.1)
pair_eq {p} e = ap (λ x. (x, p.1)) e

nonempty : (l : Records) → is_empty l ≡ false → l ≢ []
unfolding is_empty
nonempty l h e = ground arith

module _ {S : Type 0} (sink : AnalyzerSink S) (now later : ℕ) (b : RetryBuffer) (s : S) where
  -- Due, and the analyzer is there.
  abbrev Tried : Type 0
  Tried = (b.records ≢ []) × (should_retry now b.retry_state ≡ true) × (sink.is_available s ≡ true)

  -- The five ways of a flush: nothing to do; not due; the analyzer away; delivered; refused in part.
  abbrev pub FlushOutcome : Bool × RetryBuffer × S → Type 0
  FlushOutcome (flushed, b', s') =
      ((b.records ≡ []) × (flushed ≡ true) × (b' ≡ b) × (s' ≡ s))
      ⊎ ((b.records ≢ [])
          × (should_retry now b.retry_state ≡ false)
          × (flushed ≡ false)
          × (b' ≡ b)
          × (s' ≡ s))
      ⊎ ((b.records ≢ [])
          × (should_retry now b.retry_state ≡ true)
          × (sink.is_available s ≡ false)
          × (flushed ≡ false)
          × (b'.records ≡ b.records)
          × (b'.retry_state ≡ record_attempt later b.retry_state)
          × (s' ≡ s))
      ⊎ (Tried
          × (sink.send_batch b.records s ≡ (ok tt, s'))
          × (flushed ≡ true)
          × (b'.records ≡ [])
          × (b'.retry_state ≡ idle))
      ⊎ (Tried
          × (flushed ≡ false)
          × (sink.send_batch b.records s ≡ (err b'.records, s'))
          × (b'.retry_state ≡ record_attempt later b.retry_state))

  Result-cases : (r : Result Records (Unit {0})) → (r ≡ ok tt) ⊎ ((l : Records) × (r ≡ err l))
  Result-cases (ok u) = inl refl
  Result-cases (err l) = inr (l, refl)

  try_flush_sent :
      Tried
      → (r : Result Records (Unit {0})) → (sink.send_batch b.records s).0 ≡ r
      → FlushOutcome ((sent later b r).0, (sent later b r).1, (sink.send_batch b.records s).1)
  unfolding sent reset
  try_flush_sent tried (ok u) e = inr (inr (inr (inl (tried, pair_eq e, refl, refl, refl))))
  try_flush_sent tried (err l) e =
      inr (inr (inr (inr (tried, refl, pair_eq (e ∙ ap err (sym (put_back-nil l))), refl))))

  at_result :
      (r : Bool × RetryBuffer × S)
      → try_flush sink now later b s ≡ r
      → FlushOutcome r
      → FlushOutcome (try_flush sink now later b s)
  at_result r e o = subst FlushOutcome (sym e) o

  -- Which of the five ways a flush goes.
  pub try_flush_cases : FlushOutcome (try_flush sink now later b s)
  unfolding try_flush is_empty
  try_flush_cases = elim (Bool-cases (is_empty b.records)) [
    | inl none_left ↦ ground arith
    | inr some_left ↦ elim (Bool-cases (should_retry now b.retry_state)) [
      | inr early ↦
          at_result (false, b, s) (rw (some_left, early))
            (inr (inl (nonempty b.records some_left, early, refl, refl, refl)))
      | inl due ↦ elim (Bool-cases (sink.is_available s)) [
        | inr away ↦
            at_result (false, attempted later b, s) (rw (some_left, due, away))
              (inr (inr (inl (nonempty b.records some_left, due, away, refl, refl, refl, refl))))
        | inl there ↦
            let r = sink.send_batch b.records s in
            at_result ((sent later b r.0).0, (sent later b r.0).1, r.1) (rw (some_left, due, there))
              (try_flush_sent (nonempty b.records some_left, due, there) r.0 refl)
      ]
    ]
  ]

-- The state after `n` failed attempts in a row, at the instants `at n`.
abbrev pub failures : (ℕ → ℕ) → ℕ → RetryState
failures at zero = idle
failures at (suc n) = record_attempt (at n) (failures at n)

-- The last attempt, if there was one, is not ahead of the clock.
abbrev pub AttemptedBy : ℕ → Option ℕ → Type 0
AttemptedBy now none = Unit
AttemptedBy now (some last) = last ≤ now

-- The time until the next retry is exact: at an instant not before the reading, a retry is due exactly
-- if that time has passed.
pub time_until_retry-should_retry :
    (now later t : ℕ) (b : RetryBuffer) {d : ℕ}
    → AttemptedBy later b.retry_state.last_attempt
    → time_until_retry now later b ≡ some d
    → later ≤ t
    → (should_retry t b.retry_state ≡ true) ↔ (later + d ≤ t)
unfolding time_until_retry should_retry is_empty
time_until_retry-should_retry now later t b {d} attempted told le =
    elim (Option-cases b.retry_state.last_attempt) [
      | inl first ↦ ground arith
      | inr (last, tried) ↦ ground arith
    ]
