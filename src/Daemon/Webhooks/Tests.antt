-- ===== src/Daemon/Webhooks/Tests.antt =====
-- Deliveries to an endpoint that is down for a while, and the theorems at them.
use tlapix.Common.{arith, ℕ, zero, suc, ◌≡◌, refl, true, false, none, some, [], ◌∷◌}
use tlapix.Common.Text.{Text, text}
use tlapix.Common.Decimal.{show, show_digits}
use tlapix.Daemon.Webhooks.{
  WebhookConfig, WebhookEvent, WebhookPayload, from_event, WebhookDeliveryResult, Reply, status,
  judge, send_request, backoff_secs, deliver_loop, deliver_to_endpoint, dispatch_loop, dispatch,
}
use tlapix.Daemon.Webhooks.Delays.{Slept, deliver_to_endpoint-Slept}
use tlapix.Daemon.Webhooks.Delivery.{
  Delivered, deliver_to_endpoint-Delivered, deliver_to_endpoint-wraps,
}

programs : Unit {0}
unfolding show show_digits from_event judge send_request backoff_secs deliver_loop
    deliver_to_endpoint dispatch_loop dispatch
programs = tt

-- The network as how many requests still fail.
abbrev post : Text → ℕ → WebhookPayload → ℕ → Reply × ℕ
post endpoint timeout payload zero = (status 200 true (some (text "OK")), 0)
post endpoint timeout payload (suc n) = (status 503 false none, n)

abbrev config : ℕ → WebhookConfig
config retries = record {
  endpoint = text "https://example.com/hook";
  timeout_secs = 10;
  retry_max = retries;
  retry_base_secs = 1;
}

abbrev incident : WebhookEvent
incident = record {
  correlation_id = text "c";
  cert_fingerprint = text "ab";
  action_type = text "alert";
  severity = text "high";
  timestamp = text "t";
  reasoning = none;
}

third_time :
    ((deliver_to_endpoint post (config 3) (from_event incident) 2 []).0.attempts ≡ 3)
    × ((deliver_to_endpoint post (config 3) (from_event incident) 2 []).2 ≡ 1 ∷ 2 ∷ [])
unfolding programs
third_time = (refl, refl)

gives_up :
    ((deliver_to_endpoint post (config 1) (from_event incident) 9 []).0.attempts ≡ 2)
    × ((deliver_to_endpoint post (config 1) (from_event incident) 9 []).0.error
        ≡ some (text "non-2xx response: 503 Unknown"))
unfolding programs
gives_up = (refl, refl)

deliver_to_endpoint-Delivered_example :
    Delivered post
      (config 3)
      (from_event incident)
      4
      1
      none
      2
      (deliver_to_endpoint post (config 3) (from_event incident) 2 [])
deliver_to_endpoint-Delivered_example =
    deliver_to_endpoint-Delivered post (config 3) (from_event incident) 2 []

abbrev no_attempt : WebhookDeliveryResult
no_attempt = record {
  endpoint = (config 255).endpoint;
  success = false;
  attempts = 0;
  error = none;
}

deliver_to_endpoint-wraps_example :
    deliver_to_endpoint post (config 255) (from_event incident) 0 [] ≡ (no_attempt, 0, [])
deliver_to_endpoint-wraps_example =
    deliver_to_endpoint-wraps post (config 255) (from_event incident) 0 [] refl

deliver_to_endpoint-Slept_example :
    Slept post
      (config 3)
      (from_event incident)
      []
      (deliver_to_endpoint post (config 3) (from_event incident) 2 [])
deliver_to_endpoint-Slept_example =
    deliver_to_endpoint-Slept post (config 3) (from_event incident) 2 [] (omega arith)
