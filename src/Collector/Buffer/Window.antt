-- ===== src/Collector/Buffer/Window.antt =====
-- What the buffer of crates/tlapix-collector/src/buffer.rs keeps of what is pushed before it expires.
use Prim.Native.Nat.{max, min}
use mathlib.Core.List.{append-nil, append_assoc}
use tlapix.Common.{
  ℕ, zero, suc, ◌-◌, ◌%◌, ◌^◌, ◌≤◌, ◌<◌, ◌≡◌, refl, ap, sym, ◌∙◌, subst, false, some, List, [], ◌∷◌,
  ◌++◌, leb, length, drop, le→leb, length-append, length-drop, arith, Bool-cases, inl, inr,
}
use tlapix.Types.{CertificateMetadata}
use tlapix.Collector.Buffer.{
  Records, RetryBufferConfig, RetryBuffer, new_buffer, pop_front, enqueue, push, is_expired,
  state_is_expired,
}

-- The newest records of a history, as many as the buffer holds. A buffer of capacity 0 holds one.
abbrev pub window : ℕ → Records → Records
window capacity history = drop (length history - max 1 capacity) history

drop-snoc :
    {A : Type 0} (n : ℕ) (l : List A) (a : A)
    → n ≤ length l
    → drop n (l ++ a ∷ []) ≡ drop n l ++ a ∷ []
drop-snoc zero l a le = refl
drop-snoc (suc n) [] a le = absurd (omega arith)
drop-snoc (suc n) (x ∷ l) a le = drop-snoc n l a (omega arith)

pop_front-drop : (n : ℕ) (l : Records) → pop_front (drop n l) ≡ drop (suc n) l
pop_front-drop zero [] = refl
pop_front-drop zero (x ∷ l) = refl
pop_front-drop (suc n) [] = refl
pop_front-drop (suc n) (x ∷ l) = pop_front-drop n l

length-snoc : (l : Records) (r : CertificateMetadata) → length (l ++ r ∷ []) ≡ suc (length l)
length-snoc l r = omega (arith, length-append l (r ∷ []))

enqueue-full :
    (capacity k : ℕ) (r : CertificateMetadata) (l : Records)
    → k < length l
    → capacity ≤ length l - k
    → enqueue capacity r (drop k l) ≡ drop (suc k) (l ++ r ∷ [])
unfolding enqueue
enqueue-full capacity k r l some_left full = rw (
  le→leb capacity (length (drop k l)) (omega (arith, length-drop k l)),
  pop_front-drop k l,
  drop-snoc (suc k) l r (omega arith),
)

enqueue-room :
    (capacity : ℕ) (r : CertificateMetadata) (l : Records)
    → length l < max 1 capacity
    → enqueue capacity r l ≡ l ++ r ∷ []
unfolding enqueue
enqueue-room capacity r [] room = ground arith
enqueue-room capacity r (x ∷ l) room = ground arith

pub enqueue-window :
    (capacity : ℕ) (r : CertificateMetadata) (history : Records)
    → enqueue capacity r (window capacity history) ≡ window capacity (history ++ r ∷ [])
enqueue-window capacity r history =
    let k = length history - max 1 capacity in
    elim (Bool-cases (leb (max 1 capacity) (length history))) [
      | inl full ↦
          enqueue-full capacity k r history (ground arith) (ground arith)
          ∙ ap (λ n. drop n (history ++ r ∷ [])) {x = suc k} (ground (arith, length-snoc history r))
      | inr room ↦
          let start : k ≡ 0 = ground arith in
          let start' : length (history ++ r ∷ []) - max 1 capacity ≡ 0 =
            ground (arith, length-snoc history r) in
          ap (λ n. enqueue capacity r (drop n history)) start
          ∙ enqueue-room capacity r history (ground arith)
          ∙ ap (λ n. drop n (history ++ r ∷ [])) (sym start')
    ]

abbrev pub pushes : List (ℕ × CertificateMetadata) → RetryBuffer → RetryBuffer
pushes [] b = b
pushes ((now, r) ∷ rest) b = pushes rest (push now r b)

-- Every push is at an instant less than `duration` after `start`.
abbrev pub Within : ℕ → ℕ → List (ℕ × CertificateMetadata) → Type 0
Within start duration [] = Unit
Within start duration ((now, r) ∷ rest) = (now - start < duration) × Within start duration rest

abbrev pub pushed : List (ℕ × CertificateMetadata) → Records
pushed [] = []
pushed ((now, r) ∷ rest) = r ∷ pushed rest

-- What the buffer knows of its history while it has not expired.
record Tracks (start : ℕ) (history : Records) (b : RetryBuffer) : Type 0 where
  kept : b.records ≡ window b.config.capacity history
  started : b.retry_state.buffering_started ≡ some start
  evicted : b.stats.evicted_count ≡ (length history - b.config.capacity) % 2 ^ 64
  counted : b.stats.buffered_count ≡ length b.records
  unexpired : b.stats.expired_count ≡ 0

not_expired :
    (start now : ℕ) (b : RetryBuffer)
    → now - start < b.config.max_buffer_duration
    → b.retry_state.buffering_started ≡ some start
    → is_expired now b ≡ false
unfolding is_expired state_is_expired
not_expired start now b within started = ground arith

push-config :
    (now : ℕ) (r : CertificateMetadata) (b : RetryBuffer) → (push now r b).config ≡ b.config
unfolding push
push-config now r b = ground arith

length-window :
    (capacity : ℕ) (history : Records)
    → length (window capacity history) ≡ min (length history) (max 1 capacity)
length-window capacity history =
    omega (arith, length-drop (length history - max 1 capacity) history)

-- A push takes the record in, whether the buffer was started or is started by it.
push-kept :
    (now : ℕ) (r : CertificateMetadata) (history : Records) (b : RetryBuffer)
    → is_expired now b ≡ false
    → b.records ≡ window b.config.capacity history
    → (push now r b).records ≡ window b.config.capacity (history ++ r ∷ [])
unfolding push
push-kept now r history b fresh kept = rw (fresh, kept, enqueue-window b.config.capacity r history)

push-evicted :
    (now : ℕ) (r : CertificateMetadata) (history : Records) (b : RetryBuffer)
    → is_expired now b ≡ false
    → b.records ≡ window b.config.capacity history
    → b.stats.evicted_count ≡ (length history - b.config.capacity) % 2 ^ 64
    → (push now r b).stats.evicted_count ≡ (length (history ++ r ∷ []) - b.config.capacity) % 2 ^ 64
unfolding push
push-evicted now r history b fresh kept evicted =
    let held : length b.records ≡ min (length history) (max 1 b.config.capacity) =
      ap length kept ∙ length-window b.config.capacity history in
    ground (arith, length-snoc history r)

push-Tracks :
    (start now : ℕ) (r : CertificateMetadata) (history : Records) (b : RetryBuffer)
    → now - start < b.config.max_buffer_duration
    → Tracks start history b
    → Tracks start (history ++ r ∷ []) (push now r b)
unfolding push
push-Tracks start now r history b within t =
    let fresh : is_expired now b ≡ false = not_expired start now b within t.started in
    record {
      kept = rw (push-config now r b, push-kept now r history b fresh t.kept);
      started = rw (fresh, t.started);
      evicted = rw (push-config now r b, push-evicted now r history b fresh t.kept t.evicted);
      counted = rw fresh;
      unexpired = rw (fresh, t.unexpired);
    }

pushes-Tracks :
    (start : ℕ) (rest : List (ℕ × CertificateMetadata)) (history : Records) (b : RetryBuffer)
    → Within start b.config.max_buffer_duration rest
    → Tracks start history b
    → Tracks start (history ++ pushed rest) (pushes rest b) × ((pushes rest b).config ≡ b.config)
pushes-Tracks start [] history b within t =
    (subst (λ l. Tracks start l b) (sym (append-nil history)) t, refl)
pushes-Tracks start ((now, r) ∷ rest) history b (first, within) t =
    let same = push-config now r b in
    let (t', same') =
      pushes-Tracks start rest (history ++ r ∷ []) (push now r b) (rw same within)
        (push-Tracks start now r history b first t) in
    (
      subst (λ l. Tracks start l (pushes rest (push now r b)))
          (append_assoc history (r ∷ []) (pushed rest)) t',
      same' ∙ same,
    )

first_push-Tracks :
    (config : RetryBufferConfig) (start : ℕ) (r : CertificateMetadata)
    → Tracks start (r ∷ []) (push start r (new_buffer config))
unfolding push is_expired state_is_expired enqueue
first_push-Tracks config start r = record {
  kept = ground arith;
  started = refl;
  evicted = ground arith;
  counted = ground arith;
  unexpired = refl;
}

abbrev pub filled :
    RetryBufferConfig → ℕ → CertificateMetadata → List (ℕ × CertificateMetadata) → RetryBuffer
filled config start r rest = pushes ((start, r) ∷ rest) (new_buffer config)

-- A new buffer, its first record pushed at `start` and the rest less than the longest buffering time
-- later, holds the newest records of all that was pushed, in order and as many as its capacity allows;
-- it counts every other one as evicted (modulo 2^64, and one too many at capacity 0, where it holds
-- one record), and none as expired.
pub pushes-window :
    (config : RetryBufferConfig) (start : ℕ) (r : CertificateMetadata)
    (rest : List (ℕ × CertificateMetadata))
    → Within start config.max_buffer_duration rest
    → ((filled config start r rest).records ≡ window config.capacity (r ∷ pushed rest))
      × (length (filled config start r rest).records
          ≡ min (length (r ∷ pushed rest)) (max 1 config.capacity))
      × ((filled config start r rest).stats.evicted_count
          ≡ (length (r ∷ pushed rest) - config.capacity) % 2 ^ 64)
      × ((filled config start r rest).stats.expired_count ≡ 0)
pushes-window config start r rest within =
    let same = push-config start r (new_buffer config) in
    let (t, same') =
      pushes-Tracks start rest (r ∷ []) (push start r (new_buffer config)) (rw same within)
        (first_push-Tracks config start r) in
    let kept = t.kept ∙ ap (λ c. window c.capacity (r ∷ pushed rest)) (same' ∙ same) in
    (
      kept,
      ap length kept ∙ length-window config.capacity (r ∷ pushed rest),
      t.evicted ∙ ap (λ c. (length (r ∷ pushed rest) - c.capacity) % 2 ^ 64) (same' ∙ same),
      t.unexpired,
    )
