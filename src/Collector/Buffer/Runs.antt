-- ===== src/Collector/Buffer/Runs.antt =====
-- Runs of the buffer of crates/tlapix-collector/src/buffer.rs: the collector pushes and the flush loop
-- makes its rounds, in any order.
use mathlib.Core.List.{append-nil, append_assoc, Sublistᴰ}
use mathlib.Core.List.Sublistᴰ
use tlapix.Common.{
  ℕ, ◌≤◌, ◌≡◌, inl, inr, refl, sym, ◌∙◌, subst, true, not, ◌&&◌, List, [], ◌∷◌, ◌++◌, leb, length,
  ok, err, Bool-cases, arith,
}
use tlapix.Common.Text.{is_empty}
use tlapix.Types.{CertificateMetadata}
use tlapix.Collector.Buffer.{
  Records, RetryBuffer, AnalyzerSink, pop_front, enqueue, push, is_expired, state_is_expired,
  try_flush, flush_round,
}
use tlapix.Collector.Buffer.Flush.{try_flush_cases}

-- A push at an instant, or a round of the loop with the instants that it reads.
pub data Event : Type 0 where
  arrival : ℕ → CertificateMetadata → Event
  round : ℕ → ℕ → ℕ → Event

module _ {S : Type 0} (sink : AnalyzerSink S) where
  abbrev pub event : Event → RetryBuffer × S → RetryBuffer × S
  event (arrival now r) (b, s) = (push now r b, s)
  event (round now due later) (b, s) = flush_round sink now due later b s

  abbrev pub run : List Event → RetryBuffer × S → RetryBuffer × S
  run [] st = st
  run (e ∷ rest) st = run rest (event e st)

abbrev pub arrivals : List Event → Records
arrivals [] = []
arrivals (arrival now r ∷ rest) = r ∷ arrivals rest
arrivals (round now due later ∷ rest) = arrivals rest

-- No event before `t`.
abbrev pub From : ℕ → List Event → Type 0
From t [] = Unit
From t (arrival now r ∷ rest) = (t ≤ now) × From t rest
From t (round now due later ∷ rest) = (t ≤ now) × From t rest

-- What the buffer keeps once it has expired.
abbrev pub SameRecords : RetryBuffer → RetryBuffer → Type 0
SameRecords b' b =
    (b'.records ≡ b.records) × (b'.retry_state ≡ b.retry_state) × (b'.config ≡ b.config)

stays_expired :
    (t now : ℕ) (b : RetryBuffer) → t ≤ now → is_expired t b ≡ true → is_expired now b ≡ true
unfolding is_expired state_is_expired
stays_expired t now b le h = ground arith

push-SameRecords :
    (now : ℕ) (r : CertificateMetadata) (b : RetryBuffer)
    → is_expired now b ≡ true
    → SameRecords (push now r b) b
unfolding push
push-SameRecords now r b h = rw h (refl, refl, refl)

flush_round_expired :
    {S : Type 0} (sink : AnalyzerSink S) (now due later : ℕ) (b : RetryBuffer) (s : S)
    → is_expired now b ≡ true
    → flush_round sink now due later b s ≡ (b, s)
unfolding flush_round
flush_round_expired sink now due later b s h = elim (Bool-cases (is_empty b.records)) [
  | inl empty ↦ rw empty
  | inr held ↦ rw (held, h)
]

expired_transport :
    (t : ℕ) (b b' : RetryBuffer) → SameRecords b' b → is_expired t b ≡ true → is_expired t b' ≡ true
unfolding is_expired
expired_transport t b b' (_, state, config) h = rw (state, config, h)

-- Once a buffer has expired, no push and no round changes its records or its retry state, and nothing
-- reaches the analyzer any more, whether it is available or not: only `clear` ends that.
pub run_expired :
    {S : Type 0} (sink : AnalyzerSink S) (t : ℕ) (events : List Event) (b : RetryBuffer) (s : S)
    → is_expired t b ≡ true
    → From t events
    → SameRecords (run sink events (b, s)).0 b × ((run sink events (b, s)).1 ≡ s)
run_expired sink t [] b s h from = ((refl, refl, refl), refl)
run_expired sink t (arrival now r ∷ rest) b s h (le, from) =
    let same : SameRecords (push now r b) b =
      push-SameRecords now r b (stays_expired t now b le h) in
    let ((records, state, config), unsent) =
      run_expired sink t rest (push now r b) s (expired_transport t b (push now r b) same h) from in
    ((records ∙ same.0, state ∙ same.1, config ∙ same.2), unsent)
run_expired sink t (round now due later ∷ rest) b s h (le, from) =
    subst (λ st. SameRecords (run sink rest st).0 b × ((run sink rest st).1 ≡ s))
      (sym (flush_round_expired sink now due later b s (stays_expired t now b le h)))
      (run_expired sink t rest b s h from)

-- A sink that takes records in order: it holds what it was given before, then the new records from the
-- front, and returns the rest.
pub record OrderedSink {S : Type 0} (sink : AnalyzerSink S) : Type 0 where
  pub received : S → Records
  pub delivers :
      (rs : Records) (s s' : S)
      → sink.send_batch rs s ≡ (ok tt, s')
      → received s' ≡ received s ++ rs
  pub returns :
      (rs rest : Records) (s s' : S)
      → sink.send_batch rs s ≡ (err rest, s')
      → received s' ++ rest ≡ received s ++ rs

module _ {S : Type 0} (sink : AnalyzerSink S) (ordered : OrderedSink sink) where
  -- What the analyzer has, then what waits for it.
  abbrev pub in_order : RetryBuffer × S → Records
  in_order (b, s) = ordered.received s ++ b.records

  try_flush-in_order :
      (now later : ℕ) (b : RetryBuffer) (s : S)
      → in_order ((try_flush sink now later b s).1, (try_flush sink now later b s).2)
        ≡ in_order (b, s)
  try_flush-in_order now later b s = elim (try_flush_cases sink now later b s) [
    | inl (_, _, same, same') ↦ rw (same, same')
    | inr (inl (_, _, _, same, same')) ↦ rw (same, same')
    | inr (inr (inl (_, _, _, _, same, _, same'))) ↦ rw (same, same')
    | inr (inr (inr (inl (_, taken, _, empty, _)))) ↦
        rw (empty, ordered.delivers _ _ _ taken, append-nil)
    | inr (inr (inr (inr (_, _, refused, _)))) ↦ ordered.returns _ _ _ _ refused
  ]

  flush_round-in_order :
      (now due later : ℕ) (b : RetryBuffer) (s : S)
      → in_order (flush_round sink now due later b s) ≡ in_order (b, s)
  unfolding flush_round
  flush_round-in_order now due later b s =
      elim (Bool-cases (not (is_empty b.records) && not (is_expired now b))) [
        | inr idle ↦ rw idle
        | inl busy ↦ rw busy (try_flush-in_order due later b s)
      ]

  pop_front-Sublist : (l : Records) → Sublistᴰ (pop_front l) l
  pop_front-Sublist [] = Sublistᴰ.slnil
  pop_front-Sublist (x ∷ l) = Sublistᴰ.cons (Sublistᴰ.refl l)

  enqueue-Sublist :
      (c : ℕ) (r : CertificateMetadata) (l : Records) → Sublistᴰ (enqueue c r l) (l ++ r ∷ [])
  unfolding enqueue
  enqueue-Sublist c r l = elim (Bool-cases (leb c (length l))) [
    | inl full ↦ rw full (Sublistᴰ.append (pop_front-Sublist l) (Sublistᴰ.refl (r ∷ [])))
    | inr room ↦ rw room (Sublistᴰ.refl (l ++ r ∷ []))
  ]

  push-Sublist :
      (now : ℕ) (r : CertificateMetadata) (b : RetryBuffer)
      → Sublistᴰ (push now r b).records (b.records ++ r ∷ [])
  unfolding push
  push-Sublist now r b = elim (Bool-cases (is_expired now b)) [
    | inl expired ↦ rw expired (
        subst (λ l. Sublistᴰ l (b.records ++ r ∷ [])) (append-nil b.records)
          (Sublistᴰ.append (Sublistᴰ.refl b.records) (Sublistᴰ.nil-sublist (r ∷ []))))
    | inr fresh ↦ rw fresh (enqueue-Sublist b.config.capacity r b.records)
  ]

  arrival-Sublist :
      (now : ℕ) (r : CertificateMetadata) (b : RetryBuffer) (s : S)
      → Sublistᴰ (in_order (push now r b, s)) (in_order (b, s) ++ r ∷ [])
  arrival-Sublist now r b s =
      subst (Sublistᴰ (in_order (push now r b, s)))
        (sym (append_assoc (ordered.received s) b.records (r ∷ [])))
        (Sublistᴰ.append (Sublistᴰ.refl (ordered.received s)) (push-Sublist now r b))

  -- For a sink that takes records in order: after any pushes and rounds, what the analyzer has received
  -- and then what waits in the buffer is the history of arrivals with some left out: nothing is sent
  -- twice, invented or reordered, whichever attempts failed.
  pub run-in_order :
      (events : List Event) (b : RetryBuffer) (s : S)
      → Sublistᴰ (in_order (run sink events (b, s))) (in_order (b, s) ++ arrivals events)
  run-in_order [] b s = rw (append-nil (in_order (b, s))) (Sublistᴰ.refl (in_order (b, s)))
  run-in_order (arrival now r ∷ rest) b s = Sublistᴰ.trans (run-in_order rest (push now r b) s) (
      subst (Sublistᴰ (in_order (push now r b, s) ++ arrivals rest))
        (append_assoc (in_order (b, s)) (r ∷ []) (arrivals rest))
        (Sublistᴰ.append (arrival-Sublist now r b s) (Sublistᴰ.refl (arrivals rest))))
  run-in_order (round now due later ∷ rest) b s =
      subst
        (λ l.
          Sublistᴰ (in_order (run sink rest (flush_round sink now due later b s)))
            (l ++ arrivals rest))
        (flush_round-in_order now due later b s)
        (run-in_order rest (flush_round sink now due later b s).0
          (flush_round sink now due later b s).1)
