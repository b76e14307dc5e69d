-- ===== src/Executor/MapWriter/Retries.antt =====
-- The outcomes of `write_directive` (crates/tlapix-executor/src/map_writer.rs) and its retries.
use mathlib.Core.List.{append-nil, append_assoc}
use tlapix.Common.{
  ℕ, zero, suc, ◌+◌, ◌-◌, ◌%◌, ◌^◌, ◌≤◌, ◌<◌, ◌≡◌, ◌⊎◌, inl, inr, refl, ap, sym, ◌∙◌, subst, false,
  List, [], ◌∷◌, ◌++◌, ltb, leb, lt→ltb, ltb→lt, leb→le, ltb-eq-false, Result, ok, err, Bool-cases,
  arith,
}
use tlapix.Common.Text.{Text}
use tlapix.Types.{ActionDirective, ExecutionOutcome}
use tlapix.Executor.MapWriter.{
  MapWriteError, error_text, full, permanent, BpfMapWriter, Settings, Service, entry_size,
  directive_to_entry, MapRef, action_alert, action_protect, action_isolate, select_map, map_name,
  at, put, notify, sleep, total_entry_count, total_memory_bytes, delay_ms, after_failure,
  write_loop, finish, write_directive,
}

pub Result-cases : {E : Type 0} (r : Result E (Unit {0})) → (r ≡ ok tt) ⊎ ((e : E) × (r ≡ err e))
Result-cases (ok u) = inl refl
Result-cases (err e) = inr (e, refl)

module _ {M : Type 0} (writer : BpfMapWriter M) (d : ActionDirective) where
  abbrev pub write : M → Result MapWriteError (Unit {0}) × M
  write m = writer.write_entry d.cert_fingerprint (directive_to_entry d) m

  -- So many writes in a row fail from one state of the map to another, and the text of the last error.
  pub data FailedWrites : ℕ → M → M → Text → Text → Type 0 where
    none_yet : {m : M} {last : Text} → FailedWrites 0 m m last last
    one_more :
        {k : ℕ} {m m' : M} {last last' : Text} (e : MapWriteError)
        → (write m).0 ≡ err e
        → FailedWrites k (write m).1 m' (error_text e) last'
        → FailedWrites (suc k) m m' last last'

-- The service with the map behind `ref` replaced, and more delays slept.
abbrev pub after : {M : Type 0} → MapRef → M → List ℕ → Service M → Service M
after ref m ms s = put ref m (record s { sleeps = s.sleeps ++ ms })

module _ {M : Type 0} where
  at-put : (ref : MapRef) (m : M) (s : Service M) → at ref (put ref m s) ≡ m
  at-put action_alert m s = refl
  at-put action_protect m s = refl
  at-put action_isolate m s = refl

  at-sleep : (ref : MapRef) (t : ℕ) (s : Service M) → at ref (sleep t s) ≡ at ref s
  at-sleep action_alert t s = refl
  at-sleep action_protect t s = refl
  at-sleep action_isolate t s = refl

  after-sleep :
      (ref : MapRef) (m m' : M) (t : ℕ) (ms : List ℕ) (s : Service M)
      → after ref m' ms (sleep t (put ref m s)) ≡ after ref m' (t ∷ ms) s
  after-sleep action_alert m m' t ms s = rw (append_assoc s.sleeps (t ∷ []) ms)
  after-sleep action_protect m m' t ms s = rw (append_assoc s.sleeps (t ∷ []) ms)
  after-sleep action_isolate m m' t ms s = rw (append_assoc s.sleeps (t ∷ []) ms)

  after-put :
      (ref : MapRef) (m m' : M) (ms : List ℕ) (s : Service M)
      → after ref m' ms (put ref m s) ≡ after ref m' ms s
  after-put action_alert m m' ms s = refl
  after-put action_protect m m' ms s = refl
  after-put action_isolate m m' ms s = refl

  pub after-nil : (ref : MapRef) (m : M) (s : Service M) → after ref m [] s ≡ put ref m s
  after-nil action_alert m s = rw (append-nil s.sleeps)
  after-nil action_protect m s = rw (append-nil s.sleeps)
  after-nil action_isolate m s = rw (append-nil s.sleeps)

  put-at : (ref : MapRef) (s : Service M) → put ref (at ref s) s ≡ s
  put-at action_alert s = refl
  put-at action_protect s = refl
  put-at action_isolate s = refl

module _ {M : Type 0} (writer : BpfMapWriter M) (settings : Settings) (ref : MapRef)
    (d : ActionDirective) where
  -- The delays before `k` retries, from that after attempt `a` on.
  abbrev pub delays : ℕ → ℕ → List ℕ
  delays a zero = []
  delays a (suc k) = delay_ms writer settings a ∷ delays (a + 1) k

  -- The delays between `n` attempts that all fail.
  abbrev pub pauses : ℕ → ℕ → List ℕ
  pauses a zero = []
  pauses a (suc k) = delays a k

  -- How the loop ends, from a map `m0`: by a write that succeeds after `k` failures, or by `left` of them.
  abbrev LoopOutcomeFrom :
      M → ℕ → ℕ → Text → Service M → Result Text (Unit {0}) × Service M → Type 0
  LoopOutcomeFrom m0 left a last s r =
      ((k : ℕ) × (m : M) × (last' : Text) × (k < left)
        × FailedWrites writer d k m0 m last last'
        × ((write writer d m).0 ≡ ok tt)
        × (r ≡ (ok tt, after ref (write writer d m).1 (delays a k) s)))
      ⊎ ((m : M) × (last' : Text) × FailedWrites writer d left m0 m last last'
          × (r ≡ (err last', after ref m (pauses a left) s)))

  abbrev LoopOutcome : ℕ → ℕ → Text → Service M → Result Text (Unit {0}) × Service M → Type 0
  LoopOutcome left a last s r = LoopOutcomeFrom (at ref s) left a last s r

  at-after_failure :
      (a : ℕ) (m : M) (s : Service M) → at ref (after_failure writer settings a (put ref m s)) ≡ m
  at-after_failure a m s = elim (Bool-cases (ltb a (settings.max_retries - 1))) [
    | inl again ↦
        rw again (at-sleep ref (delay_ms writer settings a) (put ref m s) ∙ at-put ref m s)
    | inr last_one ↦ rw last_one (at-put ref m s)
  ]

  -- A further failure is slept after, unless it is the last.
  after-again :
      (a : ℕ) (m m' : M) (ms : List ℕ) (s : Service M)
      → a < settings.max_retries - 1
      → after ref m' ms (after_failure writer settings a (put ref m s))
        ≡ after ref m' (delay_ms writer settings a ∷ ms) s
  after-again a m m' ms s lt =
      rw (lt→ltb a (settings.max_retries - 1) lt)
        (after-sleep ref m m' (delay_ms writer settings a) ms s)

  after-last :
      (a : ℕ) (m m' : M) (ms : List ℕ) (s : Service M)
      → settings.max_retries ≡ a + 1
      → after ref m' ms (after_failure writer settings a (put ref m s)) ≡ after ref m' ms s
  after-last a m m' ms s is_last =
      rw (ltb-eq-false a (settings.max_retries - 1) (omega arith)) (after-put ref m m' ms s)

  loop_ok :
      (left a : ℕ) (last : Text) (s : Service M)
      → (write writer d (at ref s)).0 ≡ ok tt
      → write_loop writer settings ref d (suc left) a last s
        ≡ (ok tt, after ref (write writer d (at ref s)).1 [] s)
  unfolding write_loop
  loop_ok left a last s taken =
      rw (write_loop, taken, after-nil ref (write writer d (at ref s)).1 s)

  loop_err :
      (left a : ℕ) (last : Text) (s : Service M) {e : MapWriteError}
      → (write writer d (at ref s)).0 ≡ err e
      → write_loop writer settings ref d (suc left) a last s
        ≡ write_loop writer settings ref d left
            (a + 1)
            (error_text e)
            (after_failure writer settings a (put ref (write writer d (at ref s)).1 s))
  unfolding write_loop
  loop_err left a last s failed = rw (write_loop, failed)

  loop_step :
      (left a : ℕ) (last : Text) (s : Service M)
      → a + suc left ≡ settings.max_retries
      → (e : MapWriteError) → (write writer d (at ref s)).0 ≡ err e
      → {r : Result Text (Unit {0}) × Service M}
      → LoopOutcomeFrom
          (write writer d (at ref s)).1
          left
          (a + 1)
          (error_text e)
          (after_failure writer settings a (put ref (write writer d (at ref s)).1 s))
          r
      → LoopOutcome (suc left) a last s r
  loop_step left a last s total e failed (inl (k, m, last', lt, run, taken, eq)) = inl (
    suc k,
    m,
    last',
    omega arith,
    one_more e failed run,
    taken,
    eq
        ∙ ap (λ t. (ok tt, t))
            (after-again a _ (write writer d m).1 (delays (a + 1) k) s (omega arith)),
  )
  loop_step zero a last s total e failed (inr (m, last', run, eq)) = inr (
    m,
    last',
    one_more e failed run,
    eq ∙ ap (λ t. (err last', t)) (after-last a _ m [] s (omega arith)),
  )
  loop_step (suc left) a last s total e failed (inr (m, last', run, eq)) = inr (
    m,
    last',
    one_more e failed run,
    eq ∙ ap (λ t. (err last', t)) (after-again a _ m (delays (a + 1) left) s (omega arith)),
  )

  write_loop-LoopOutcome :
      (left a : ℕ) (last : Text) (s : Service M)
      → a + left ≡ settings.max_retries
      → LoopOutcome left a last s (write_loop writer settings ref d left a last s)
  unfolding write_loop
  write_loop-LoopOutcome zero a last s total = inr (
    at ref s,
    last,
    none_yet,
    ap (λ t. (err last, t)) (sym (after-nil ref (at ref s) s ∙ put-at ref s)),
  )
  write_loop-LoopOutcome (suc left) a last s total =
      elim (Result-cases (write writer d (at ref s)).0) [
        | inl taken ↦
            inl (0, at ref s, last, omega arith, none_yet, taken, loop_ok left a last s taken)
        | inr (e, failed) ↦
            let m1 = (write writer d (at ref s)).1 in
            let s1 = after_failure writer settings a (put ref m1 s) in
            subst (LoopOutcome (suc left) a last s) (sym (loop_err left a last s failed)) (
              loop_step left a last s total e failed (
                subst
                  (λ x.
                    LoopOutcomeFrom x left (a + 1) (error_text e) s1
                      (write_loop writer settings ref d left (a + 1) (error_text e) s1))
                  (at-after_failure a m1 s)
                  (write_loop-LoopOutcome left (a + 1) (error_text e) s1 (omega arith))))
      ]

module _ {M : Type 0} (writer : BpfMapWriter M) (settings : Settings) (d : ActionDirective)
    (s : Service M) where
  abbrev ref : MapRef
  ref = select_map d.action_type

  abbrev pub Roomy : Type 0
  Roomy =
      (writer.entry_count (at ref s) < settings.max_entries_per_map)
      × ((total_memory_bytes writer settings s + entry_size) % 2 ^ 64
          ≤ settings.max_total_memory_bytes)

  -- The four ways of a directive: its map is full; the memory cap is reached; it is written after some
  -- failures; or all attempts failed.
  abbrev pub WriteOutcome : ExecutionOutcome × Service M → Type 0
  WriteOutcome r =
      ((settings.max_entries_per_map ≤ writer.entry_count (at ref s))
        × (r ≡ (
          ExecutionOutcome.map_full,
          notify settings.has_notifier
              (full (map_name d.action_type) (writer.entry_count (at ref s))) s,
        )))
      ⊎ ((settings.max_total_memory_bytes
            < (total_memory_bytes writer settings s + entry_size) % 2 ^ 64)
          × (r ≡ (
            ExecutionOutcome.map_full,
            notify settings.has_notifier
                (full (map_name d.action_type) (total_entry_count writer settings s)) s,
          )))
      ⊎ (Roomy
          × ((k : ℕ) × (m : M) × (last : Text) × (k < settings.max_retries)
              × FailedWrites writer d k (at ref s) m [] last
              × ((write writer d m).0 ≡ ok tt)
              × (r ≡ (
                ExecutionOutcome.success,
                after ref (write writer d m).1 (delays writer settings ref d 0 k) s,
              ))))
      ⊎ (Roomy
          × ((m : M) × (last : Text) × FailedWrites writer d settings.max_retries (at ref s) m []
                last
              × (r ≡ (
                ExecutionOutcome.failed last settings.max_retries,
                notify settings.has_notifier (permanent d last settings.max_retries)
                    (after ref m (pauses writer settings ref d 0 settings.max_retries) s),
              ))))

  written :
      leb settings.max_entries_per_map (writer.entry_count (at ref s)) ≡ false
      → ltb settings.max_total_memory_bytes
          ((total_memory_bytes writer settings s + entry_size) % 2 ^ 64)
        ≡ false
      → write_directive writer settings d s
        ≡ finish writer settings d (write_loop writer settings ref d settings.max_retries 0 [] s)
  unfolding write_directive
  written room fits = rw (room, fits)

  finished :
      Roomy
      → {r : Result Text (Unit {0}) × Service M}
      → LoopOutcome writer settings ref d settings.max_retries 0 [] s r
      → WriteOutcome (finish writer settings d r)
  finished roomy (inl (k, m, last, lt, run, taken, eq)) =
      inr (inr (inl (roomy, (k, m, last, lt, run, taken, ap (finish writer settings d) eq))))
  finished roomy (inr (m, last, run, eq)) =
      inr (inr (inr (roomy, (m, last, run, ap (finish writer settings d) eq))))

  pub write_directive_cases : WriteOutcome (write_directive writer settings d s)
  unfolding write_directive
  write_directive_cases =
      elim (Bool-cases (leb settings.max_entries_per_map (writer.entry_count (at ref s)))) [
        | inl is_full ↦ inl (leb→le _ _ is_full, rw is_full)
        | inr room ↦
            elim (Bool-cases (
              ltb settings.max_total_memory_bytes
                ((total_memory_bytes writer settings s + entry_size) % 2 ^ 64))) [
                  | inl capped ↦ inr (inl (ltb→lt _ _ capped, rw (room, capped)))
                  | inr fits ↦ subst WriteOutcome (sym (written room fits)) (
                      finished (ground arith, ground arith)
                        (write_loop-LoopOutcome writer settings ref d settings.max_retries 0 [] s
                          (omega arith)))
                ]
      ]
