-- ===== src/Daemon/Webhooks/Delays.antt =====
-- The delays that a delivery of crates/tlapix-daemon/src/webhooks.rs sleeps between its attempts.
use mathlib.Core.List.{append-nil, append_assoc}
use tlapix.Common.{
  refl, ap₂, ◌*◌, ◌-◌, ◌%◌, ◌^◌, ℕ, zero, suc, ◌+◌, ◌<◌, ◌≤◌, ◌≡◌, inl, inr, ap, sym, ◌∙◌, subst,
  Option, none, some, List, [], ◌∷◌, ◌++◌, lt→ltb, ltb-eq-false, arith,
}
use tlapix.Common.Text.{Text}
use tlapix.Daemon.Webhooks.{
  WebhookConfig, WebhookPayload, WebhookDeliveryResult, Reply, send_request, max_attempts,
  backoff_secs, pause, deliver_loop, deliver_to_endpoint,
}
use tlapix.Daemon.Webhooks.Delivery.{Reply-cases, loop_ok, loop_err}

module _ {H : Type 0} (post : Text → ℕ → WebhookPayload → H → Reply × H) (config : WebhookConfig)
    (payload : WebhookPayload) where
  -- The delays as the code computes them, after `n` attempts in a row, from `attempt` on.
  abbrev paused : ℕ → ℕ → List ℕ
  paused attempt zero = []
  paused attempt (suc n) = backoff_secs post config attempt ∷ paused (attempt + 1) n

  abbrev Paused : ℕ → List ℕ → WebhookDeliveryResult × H × List ℕ → Type 0
  Paused attempt sleeps (result, h, slept) =
      (n : ℕ) × (result.attempts ≡ attempt + n)
      × (result.attempts ≤ max_attempts post config)
      × (slept ≡ sleeps ++ paused attempt n)

  pause-again :
      (attempt : ℕ) (sleeps : List ℕ)
      → attempt < max_attempts post config
      → pause post config attempt sleeps ≡ sleeps ++ backoff_secs post config attempt ∷ []
  pause-again attempt sleeps lt = rw (pause, lt→ltb attempt (max_attempts post config) lt)

  pause-last :
      (attempt : ℕ) (sleeps : List ℕ)
      → attempt ≡ max_attempts post config
      → pause post config attempt sleeps ≡ sleeps
  pause-last attempt sleeps e =
      rw (pause, ltb-eq-false attempt (max_attempts post config) (omega arith))

  later-Paused :
      (attempt : ℕ) (sleeps : List ℕ) (r : WebhookDeliveryResult × H × List ℕ)
      → attempt < max_attempts post config
      → Paused (attempt + 1) (pause post config attempt sleeps) r
      → Paused attempt sleeps r
  later-Paused attempt sleeps (result, h, slept) lt (n, counted, bounded, eq) = (
    suc n,
    omega arith,
    bounded,
    eq
        ∙ ap (λ s. s ++ paused (attempt + 1) n) (pause-again attempt sleeps lt)
        ∙ append_assoc sleeps (backoff_secs post config attempt ∷ []) (paused (attempt + 1) n),
  )

  deliver_loop-Paused :
      (left attempt : ℕ) (last : Option Text) (h : H) (sleeps : List ℕ)
      → attempt + left ≡ max_attempts post config
      → Paused attempt sleeps (deliver_loop post config payload (suc left) attempt last h sleeps)
  unfolding deliver_loop
  deliver_loop-Paused zero attempt last h sleeps total =
      elim (Reply-cases post (send_request post config payload h).0) [
        | inl taken ↦
            subst (Paused attempt sleeps)
              (sym (loop_ok post config payload zero attempt last h sleeps taken))
              (0, omega arith, omega arith, sym (append-nil sleeps))
        | inr (e, failed) ↦
            subst (Paused attempt sleeps)
              (sym (loop_err post config payload zero attempt last h sleeps failed))
              (
                0,
                omega arith,
                omega arith,
                pause-last attempt sleeps (omega arith) ∙ sym (append-nil sleeps),
              )
      ]
  deliver_loop-Paused (suc left) attempt last h sleeps total =
      elim (Reply-cases post (send_request post config payload h).0) [
        | inl taken ↦
            subst (Paused attempt sleeps)
              (sym (loop_ok post config payload (suc left) attempt last h sleeps taken))
              (0, omega arith, omega arith, sym (append-nil sleeps))
        | inr (e, failed) ↦
            subst (Paused attempt sleeps)
              (sym (loop_err post config payload (suc left) attempt last h sleeps failed))
              (later-Paused attempt sleeps
                (deliver_loop post config payload (suc left) (attempt + 1) (some e)
                  (send_request post config payload h).1 (pause post config attempt sleeps))
                (omega arith)
                (deliver_loop-Paused left (attempt + 1) (some e)
                  (send_request post config payload h).1 (pause post config attempt sleeps)
                  (omega arith)))
      ]

  -- `n` delays in seconds that double, from the base times 2 to the power of `k` on, in the arithmetic of a u64.
  abbrev pub waits : ℕ → ℕ → List ℕ
  waits k zero = []
  waits k (suc n) = config.retry_base_secs * 2 ^ k % 2 ^ 64 ∷ waits (k + 1) n

  -- The attempts, and one delay between each two of them.
  abbrev pub Slept : List ℕ → WebhookDeliveryResult × H × List ℕ → Type 0
  Slept sleeps (result, h, slept) =
      (n : ℕ) × (result.attempts ≡ n + 1)
      × (result.attempts ≤ config.retry_max + 1)
      × (slept ≡ sleeps ++ waits 0 n)

  wrap_factor : (b p : ℕ) → b * (p % 2 ^ 64) % 2 ^ 64 ≡ b * p % 2 ^ 64
  wrap_factor zero p = omega arith
  wrap_factor (suc b) p = omega (arith, wrap_factor b p)

  paused-waits : (k n : ℕ) → paused (k + 1) n ≡ waits k n
  unfolding backoff_secs
  paused-waits k zero = refl
  paused-waits k (suc n) =
      ap₂ (λ x xs. x ∷ xs)
        (ap (λ j. config.retry_base_secs * (2 ^ j % 2 ^ 64) % 2 ^ 64) one_less
          ∙ wrap_factor config.retry_base_secs (2 ^ k))
        (paused-waits (k + 1) n)
    where
      one_less : k + 1 - 1 ≡ k
      one_less = omega arith

  -- With fewer than 255 retries, a delivery makes at least one attempt and at most one more than the
  -- retries, and sleeps between each two attempts: first the base, then twice as long each time, modulo
  -- 2^64.
  pub deliver_to_endpoint-Slept :
      (h : H) (sleeps : List ℕ)
      → config.retry_max < 255
      → Slept sleeps (deliver_to_endpoint post config payload h sleeps)
  unfolding deliver_to_endpoint
  deliver_to_endpoint-Slept h sleeps lt =
      let unwrapped : suc config.retry_max ≡ max_attempts post config = omega arith in
      let (n, counted, bounded, eq) =
        subst (λ k. Paused 1 sleeps (deliver_loop post config payload k 1 none h sleeps)) unwrapped
          (deliver_loop-Paused config.retry_max 1 none h sleeps (omega arith)) in
      (n, omega arith, omega arith, eq ∙ ap (λ w. sleeps ++ w) (paused-waits 0 n))
