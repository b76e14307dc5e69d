-- ===== src/Daemon/Webhooks/Delivery.antt =====
-- What the dispatcher of crates/tlapix-daemon/src/webhooks.rs reports and how often it tries.
use tlapix.Common.{
  ℕ, zero, suc, ◌+◌, ◌<◌, ◌≡◌, ◌⊎◌, inl, inr, refl, ap, ap₂, sym, ◌∙◌, subst, Bool, true, false,
  Option, none, some, List, [], ◌∷◌, map, Result, ok, err, arith,
}
use tlapix.Common.Text.{Text}
use tlapix.Daemon.Webhooks.{
  WebhookConfig, WebhookEvent, WebhookPayload, from_event, WebhookDeliveryResult, Reply,
  send_request, max_attempts, pause, deliver_loop, deliver_to_endpoint, dispatch_loop, dispatch,
}

module _ {H : Type 0} (post : Text → ℕ → WebhookPayload → H → Reply × H) where
  -- So many requests in a row fail from one state of the network to another; the last error.
  pub data FailedRequests (config : WebhookConfig) (payload : WebhookPayload)
      : ℕ → H → H → Option Text → Option Text → Type 0 where
    no_more : {h : H} {last : Option Text} → FailedRequests config payload 0 h h last last
    one_more :
        {k : ℕ} {h h' : H} {last last' : Option Text} (e : Text)
        → (send_request post config payload h).0 ≡ err e
        → FailedRequests config payload k (send_request post config payload h).1 h' (some e) last'
        → FailedRequests config payload (suc k) h h' last last'

  pub Reply-cases : (r : Result Text (Unit {0})) → (r ≡ ok tt) ⊎ ((e : Text) × (r ≡ err e))
  Reply-cases (ok u) = inl refl
  Reply-cases (err e) = inr (e, refl)

  abbrev report : WebhookConfig → Bool → ℕ → Option Text → WebhookDeliveryResult
  report config success attempts error = record {
    endpoint = config.endpoint;
    success = success;
    attempts = attempts;
    error = error;
  }

  -- A delivery by the first request that succeeds, or a failure after all of them.
  abbrev pub Delivered :
      WebhookConfig
      → WebhookPayload
      → ℕ
      → ℕ
      → Option Text
      → H
      → WebhookDeliveryResult × H × List ℕ
      → Type 0
  Delivered config payload left attempt last h (result, h'', slept) =
      ((k : ℕ) × (h' : H) × (last' : Option Text) × (k < left)
        × FailedRequests config payload k h h' last last'
        × ((send_request post config payload h').0 ≡ ok tt)
        × (h'' ≡ (send_request post config payload h').1)
        × (result ≡ report config true (attempt + k) none))
      ⊎ ((last' : Option Text) × FailedRequests config payload left h h'' last last'
          × (result ≡ report config false (max_attempts post config) last'))

  pub loop_ok :
      (config : WebhookConfig) (payload : WebhookPayload) (left attempt : ℕ) (last : Option Text)
      (h : H) (sleeps : List ℕ)
      → (send_request post config payload h).0 ≡ ok tt
      → deliver_loop post config payload (suc left) attempt last h sleeps
        ≡ (report config true attempt none, (send_request post config payload h).1, sleeps)
  unfolding deliver_loop
  loop_ok config payload left attempt last h sleeps taken = rw (deliver_loop, taken)

  pub loop_err :
      (config : WebhookConfig) (payload : WebhookPayload) (left attempt : ℕ) (last : Option Text)
      (h : H) (sleeps : List ℕ) {e : Text}
      → (send_request post config payload h).0 ≡ err e
      → deliver_loop post config payload (suc left) attempt last h sleeps
        ≡ deliver_loop post config payload left
            (attempt + 1)
            (some e)
            (send_request post config payload h).1
            (pause post config attempt sleeps)
  unfolding deliver_loop
  loop_err config payload left attempt last h sleeps failed = rw (deliver_loop, failed)

  loop_step :
      (config : WebhookConfig) (payload : WebhookPayload) (left attempt : ℕ) (last : Option Text)
      (h : H) (e : Text)
      → (send_request post config payload h).0 ≡ err e
      → (r : WebhookDeliveryResult × H × List ℕ)
      → Delivered config payload left
          (attempt + 1)
          (some e)
          (send_request post config payload h).1
          r
      → Delivered config payload (suc left) attempt last h r
  loop_step config payload left attempt last h e failed (result, h'', slept)
        (inl (k, h', last', lt, run, taken, at_end, eq)) =
      inl (
        suc k,
        h',
        last',
        omega arith,
        one_more e failed run,
        taken,
        at_end,
        eq ∙ ap (λ n. report config true n none) (omega arith),
      )
  loop_step config payload left attempt last h e failed (result, h'', slept)
        (inr (last', run, eq)) =
      inr (last', one_more e failed run, eq)

  deliver_loop-Delivered :
      (config : WebhookConfig) (payload : WebhookPayload) (left attempt : ℕ) (last : Option Text)
      (h : H) (sleeps : List ℕ)
      → Delivered config payload left attempt last h
          (deliver_loop post config payload left attempt last h sleeps)
  unfolding deliver_loop
  deliver_loop-Delivered config payload zero attempt last h sleeps = inr (last, no_more, refl)
  deliver_loop-Delivered config payload (suc left) attempt last h sleeps =
      elim (Reply-cases (send_request post config payload h).0) [
        | inl taken ↦
            subst (Delivered config payload (suc left) attempt last h)
              (sym (loop_ok config payload left attempt last h sleeps taken))
              (inl (
                0,
                h,
                last,
                omega arith,
                no_more,
                taken,
                refl,
                ap (λ n. report config true n none) (omega arith),
              ))
        | inr (e, failed) ↦
            subst (Delivered config payload (suc left) attempt last h)
              (sym (loop_err config payload left attempt last h sleeps failed))
              (loop_step config payload left attempt last h e failed
                (deliver_loop post config payload left (attempt + 1) (some e)
                  (send_request post config payload h).1 (pause post config attempt sleeps))
                (deliver_loop-Delivered config payload left (attempt + 1) (some e)
                  (send_request post config payload h).1 (pause post config attempt sleeps)))
      ]

  delivered-endpoint :
      (config : WebhookConfig) (payload : WebhookPayload) (h : H) (sleeps : List ℕ)
      → (deliver_to_endpoint post config payload h sleeps).0.endpoint ≡ config.endpoint
  unfolding deliver_to_endpoint
  delivered-endpoint config payload h sleeps =
      elim (deliver_loop-Delivered config payload (max_attempts post config) 1 none h sleeps) [
        | inl (_, _, _, _, _, _, _, eq) ↦ ap (λ r. r.endpoint) eq
        | inr (_, _, eq) ↦ ap (λ r. r.endpoint) eq
      ]

  endpoints :
      (configs : List WebhookConfig) (payload : WebhookPayload) (h : H) (sleeps : List ℕ)
      → map (λ r. r.endpoint) (dispatch_loop post configs payload h sleeps).0
        ≡ map (λ c. c.endpoint) configs
  unfolding dispatch_loop
  endpoints [] payload h sleeps = refl
  endpoints (config ∷ configs) payload h sleeps =
      ap₂ ◌∷◌ (delivered-endpoint config payload h sleeps) (endpoints configs payload _ _)

  -- A delivery succeeds with the first request that does, and reports its number; it fails after all of
  -- `retry_max + 1` requests, modulo 256, have failed, and reports the last error.
  pub deliver_to_endpoint-Delivered :
      (config : WebhookConfig) (payload : WebhookPayload) (h : H) (sleeps : List ℕ)
      → Delivered config payload
          (max_attempts post config)
          1
          none
          h
          (deliver_to_endpoint post config payload h sleeps)
  unfolding deliver_to_endpoint
  deliver_to_endpoint-Delivered config payload h sleeps =
      deliver_loop-Delivered config payload (max_attempts post config) 1 none h sleeps

  -- An endpoint that is configured with 255 retries is never sent anything: the number of attempts wraps
  -- to 0, and the delivery fails without an error.
  pub deliver_to_endpoint-wraps :
      (config : WebhookConfig) (payload : WebhookPayload) (h : H) (sleeps : List ℕ)
      → config.retry_max ≡ 255
      → deliver_to_endpoint post config payload h sleeps ≡ (report config false 0 none, h, sleeps)
  unfolding deliver_to_endpoint
  deliver_to_endpoint-wraps config payload h sleeps wraps = rw (deliver_to_endpoint, wraps)

  -- Every endpoint gets a result of its own, in the configured order, whatever happened to the others.
  pub dispatch-endpoints :
      (configs : List WebhookConfig) (event : WebhookEvent) (h : H) (sleeps : List ℕ)
      → map (λ r. r.endpoint) (dispatch post configs event h sleeps).0
        ≡ map (λ c. c.endpoint) configs
  unfolding dispatch
  dispatch-endpoints configs event h sleeps = endpoints configs (from_event event) h sleeps
