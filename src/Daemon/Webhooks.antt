-- ===== src/Daemon/Webhooks.antt =====
-- crates/tlapix-daemon/src/webhooks.rs: notifications by HTTP, with retries. The client is a parameter
-- over the state `H` of the network. A sum of machine integers wraps, as in a release build; logs are
-- left out.
pub mod Delivery
pub mod Delays
pub mod Tests
use tlapix.Common.{
  ℕ, zero, suc, ◌+◌, ◌-◌, ◌*◌, ◌%◌, ◌^◌, Bool, true, false, Option, none, some, List, [], ◌∷◌, ◌++◌,
  ltb, if◌then◌else◌, Result, ok, err,
}
use tlapix.Common.Text.{Text, text}
use tlapix.Common.Decimal.{show}

-- crates/tlapix-common/src/config.rs
pub record WebhookConfig : Type 0 where
  pub endpoint : Text
  pub timeout_secs : ℕ
  pub retry_max : ℕ
  pub retry_base_secs : ℕ

pub record WebhookEvent : Type 0 where
  pub correlation_id : Text
  pub cert_fingerprint : Text
  pub action_type : Text
  pub severity : Text
  pub timestamp : Text
  pub reasoning : Option Text

pub record WebhookPayload : Type 0 where
  pub source : Text
  pub version : Text
  pub correlation_id : Text
  pub cert_fingerprint : Text
  pub action_type : Text
  pub severity : Text
  pub timestamp : Text
  pub reasoning : Option Text

unfoldable pub from_event : WebhookEvent → WebhookPayload
from_event event = record {
  source = text "tlapix";
  version = text "0.1.0";
  correlation_id = event.correlation_id;
  cert_fingerprint = event.cert_fingerprint;
  action_type = event.action_type;
  severity = event.severity;
  timestamp = event.timestamp;
  reasoning = event.reasoning;
}

pub record WebhookDeliveryResult : Type 0 where
  pub endpoint : Text
  pub success : Bool
  pub attempts : ℕ
  pub error : Option Text

-- What the client answers: an error by its kind with its text, or a status with its code, whether it is
-- a success, and its canonical reason.
pub data Reply : Type 0 where
  timed_out : Reply
  not_connected : Text → Reply
  request_failed : Text → Reply
  status : ℕ → Bool → Option Text → Reply

abbrev reason_or_unknown : Option Text → Text
reason_or_unknown none = text "Unknown"
reason_or_unknown (some reason) = reason

unfoldable pub judge : ℕ → Reply → Result Text (Unit {0})
judge timeout timed_out = err (text "request timed out after " ++ (show timeout ++ text "s"))
judge timeout (not_connected e) = err (text "connection failed: " ++ e)
judge timeout (request_failed e) = err (text "request failed: " ++ e)
judge timeout (status code true reason) = ok tt
judge timeout (status code false reason) =
    err (text "non-2xx response: " ++ (show code ++ (text " " ++ reason_or_unknown reason)))

-- `post` takes the endpoint, the timeout in seconds and the payload.
module _ {H : Type 0} (post : Text → ℕ → WebhookPayload → H → Reply × H) where
  unfoldable pub send_request : WebhookConfig → WebhookPayload → H → Result Text (Unit {0}) × H
  unfolding judge
  send_request config payload h =
      let (reply, h') = post config.endpoint config.timeout_secs payload h in
      (judge config.timeout_secs reply, h')

  -- `config.retry_max + 1` of a u8.
  abbrev pub max_attempts : WebhookConfig → ℕ
  max_attempts config = (config.retry_max + 1) % 2 ^ 8

  unfoldable pub backoff_secs : WebhookConfig → ℕ → ℕ
  backoff_secs config attempt = config.retry_base_secs * (2 ^ (attempt - 1) % 2 ^ 64) % 2 ^ 64

  -- The network, and the delays slept so far.
  abbrev pub Net : Type 0
  Net = H × List ℕ

  abbrev pub pause : WebhookConfig → ℕ → List ℕ → List ℕ
  pause config attempt sleeps =
      if ltb attempt (max_attempts config)
      then sleeps ++ backoff_secs config attempt ∷ []
      else sleeps

  -- The loop from `attempt` on, `left` rounds of which are left.
  unfoldable pub deliver_loop :
      WebhookConfig
      → WebhookPayload
      → ℕ
      → ℕ
      → Option Text
      → H
      → List ℕ
      → WebhookDeliveryResult × H × List ℕ
  unfolding send_request backoff_secs
  deliver_loop config payload zero attempt last_error h sleeps = (
    record {
      endpoint = config.endpoint;
      success = false;
      attempts = max_attempts config;
      error = last_error;
    },
    h,
    sleeps,
  )
  deliver_loop config payload (suc left) attempt last_error h sleeps =
      let (r, h') = send_request config payload h in
      elim r [
        | ok u ↦ (
          record { endpoint = config.endpoint; success = true; attempts = attempt; error = none },
          h',
          sleeps,
        )
        | err e ↦
            deliver_loop config payload left (attempt + 1) (some e) h' (pause config attempt sleeps)
      ]

  unfoldable pub deliver_to_endpoint :
      WebhookConfig → WebhookPayload → H → List ℕ → WebhookDeliveryResult × H × List ℕ
  unfolding deliver_loop
  deliver_to_endpoint config payload h sleeps =
      deliver_loop config payload (max_attempts config) 1 none h sleeps

  -- The loop over the configured endpoints.
  unfoldable pub dispatch_loop :
      List WebhookConfig → WebhookPayload → H → List ℕ → List WebhookDeliveryResult × H × List ℕ
  unfolding deliver_to_endpoint
  dispatch_loop [] payload h sleeps = ([], h, sleeps)
  dispatch_loop (config ∷ configs) payload h sleeps =
      let (result, h1, sleeps1) = deliver_to_endpoint config payload h sleeps in
      let (results, h2, sleeps2) = dispatch_loop configs payload h1 sleeps1 in
      (result ∷ results, h2, sleeps2)

  unfoldable pub dispatch :
      List WebhookConfig → WebhookEvent → H → List ℕ → List WebhookDeliveryResult × H × List ℕ
  unfolding from_event dispatch_loop
  dispatch configs event h sleeps = dispatch_loop configs (from_event event) h sleeps
