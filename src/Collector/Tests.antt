-- ===== src/Collector/Tests.antt =====
-- Runs of the buffer over a channel that holds what was sent, and the theorems at them.
use mathlib.Core.List.{Sublistᴰ}
use Prim.Native.Nat.{min, max}
use tlapix.Common.{
  ℕ, zero, suc, ◌+◌, ◌-◌, ◌%◌, ◌^◌, ◌≡◌, refl, Bool, true, false, none, List, [], ◌∷◌, ◌++◌, length,
  replicate, arith,
}
use tlapix.Common.Int.{pos}
use tlapix.Common.Text.{text, is_empty}
use tlapix.Types.{CertificateMetadata}
use tlapix.Collector.Buffer.{
  Records, RetryBufferConfig, RetryBuffer, new_buffer, initial_retry_interval, max_buffer_duration,
  record_attempt, state_is_expired, should_retry, reset, is_expired, enqueue, push, put_back, sent,
  try_flush, flush_round, time_until_retry, clear,
}
use tlapix.Collector.Buffer.Window.{window, pushed, filled, pushes-window}
use tlapix.Collector.Buffer.Flush.{FlushOutcome, try_flush_cases}
use tlapix.Collector.Buffer.Runs.{
  Event, arrival, round, run, SameRecords, run_expired, in_order, arrivals, run-in_order,
}
use tlapix.Collector.Channel.{
  Channel, ChannelLaws, send_loop, send_batch, channel_sink, channel_sink-OrderedSink,
}

abbrev certificate : ℕ → CertificateMetadata
certificate n = record {
  fingerprint = replicate 32 n;
  subject = text "CN=a";
  issuer = text "CN=b";
  serial_number = text "01";
  not_before = pos 0;
  not_after = pos 1;
  sans = [];
  key_algorithm = text "RSA";
  key_size = 2048;
  chain_depth = 1;
  issuer_fingerprint = none;
  first_seen = pos 0;
  last_seen = pos 0;
  connection_count = 1;
  source_ip = none;
  destination_ip = none;
  sni_hostname = none;
  completeness_flags = 0;
}

programs : Unit {0}
unfolding is_empty record_attempt state_is_expired should_retry reset is_expired enqueue push
    put_back sent try_flush flush_round time_until_retry clear send_loop send_batch
programs = tt

-- A channel as what was queued and how much room is left before its receiver goes away.
abbrev queue_record : CertificateMetadata → Records × ℕ → Bool × (Records × ℕ)
queue_record r (q, zero) = (false, (q, 0))
queue_record r (q, suc room) = (true, (q ++ r ∷ [], room))

abbrev no_room : Records × ℕ → Bool
no_room (q, zero) = true
no_room (q, suc room) = false

abbrev channel : Channel (Records × ℕ)
channel = record { send = λ r c. queue_record r c; is_closed = no_room }

channel-accepts :
    (r : CertificateMetadata) (c : Records × ℕ)
    → (channel.send r c).0 ≡ true
    → (channel.send r c).1.0 ≡ c.0 ++ r ∷ []
channel-accepts r (q, zero) h = cc
channel-accepts r (q, suc room) h = refl

channel-refuses :
    (r : CertificateMetadata) (c : Records × ℕ)
    → (channel.send r c).0 ≡ false
    → ((channel.send r c).1.0 ≡ c.0) × (no_room (channel.send r c).1 ≡ true)
channel-refuses r (q, zero) h = (refl, refl)
channel-refuses r (q, suc room) h = cc

channel-stays_closed :
    (r : CertificateMetadata) (c : Records × ℕ) → no_room c ≡ true → (channel.send r c).0 ≡ false
channel-stays_closed r (q, zero) h = refl
channel-stays_closed r (q, suc room) h = cc

laws : ChannelLaws channel
laws = record {
  queue = λ c. c.0;
  accepts = channel-accepts;
  refuses = channel-refuses;
  stays_closed = channel-stays_closed;
}

abbrev small : RetryBufferConfig
small = record {
  capacity = 2;
  initial_retry_interval = initial_retry_interval;
  max_buffer_duration = max_buffer_duration;
}

abbrev others : List (ℕ × CertificateMetadata)
others = (1, certificate 2) ∷ (2, certificate 3) ∷ []

kept_two : (filled small 0 (certificate 1) others).records ≡ certificate 2 ∷ certificate 3 ∷ []
unfolding programs
kept_two = refl

pushes-window_example :
    ((filled small 0 (certificate 1) others).records ≡ window 2 (certificate 1 ∷ pushed others))
    × (length (filled small 0 (certificate 1) others).records ≡ min 3 (max 1 2))
    × ((filled small 0 (certificate 1) others).stats.evicted_count ≡ (3 - 2) % 2 ^ 64)
    × ((filled small 0 (certificate 1) others).stats.expired_count ≡ 0)
pushes-window_example =
    pushes-window small 0 (certificate 1) others (omega arith, (omega arith, tt))

-- Two records wait, the channel takes one and closes.
abbrev waiting : RetryBuffer
waiting = filled small 0 (certificate 1) others

returned : (try_flush (channel_sink channel) 3 4 waiting ([], 1)).1.records ≡ certificate 3 ∷ []
unfolding programs
returned = refl

try_flush_cases_example :
    FlushOutcome
      (channel_sink channel)
      3
      4
      waiting
      ([], 1)
      (try_flush (channel_sink channel) 3 4 waiting ([], 1))
try_flush_cases_example = try_flush_cases (channel_sink channel) 3 4 waiting ([], 1)

-- After a failed attempt at 4, with 60 s of backoff.
abbrev refused : RetryBuffer
refused = (try_flush (channel_sink channel) 3 4 waiting ([], 1)).1

abbrev hour : ℕ
hour = max_buffer_duration

abbrev late : List Event
late = arrival hour (certificate 4) ∷ round (hour + 1) (hour + 1) (hour + 2) ∷ []

run_expired_example :
    SameRecords (run (channel_sink channel) late (waiting, ([], 9))).0 waiting
    × ((run (channel_sink channel) late (waiting, ([], 9))).1 ≡ ([], 9))
unfolding programs
run_expired_example =
    run_expired (channel_sink channel) hour late waiting ([], 9) refl
      (omega arith, (omega arith, tt))

abbrev events : List Event
events =
    arrival 0 (certificate 1)
    ∷ arrival 1 (certificate 2)
    ∷ arrival 2 (certificate 3)
    ∷ round 3 3 4
    ∷ arrival 5 (certificate 4)
    ∷ round 6 6 7
    ∷ []

events_run :
    in_order
      (channel_sink channel)
      (channel_sink-OrderedSink channel laws)
      (run (channel_sink channel) events (new_buffer small, ([], 1)))
    ≡ certificate 2 ∷ certificate 3 ∷ certificate 4 ∷ []
unfolding programs laws
events_run = refl

run-in_order_example :
    Sublistᴰ
      (in_order
        (channel_sink channel)
        (channel_sink-OrderedSink channel laws)
        (run (channel_sink channel) events (new_buffer small, ([], 1))))
      (in_order
          (channel_sink channel)
          (channel_sink-OrderedSink channel laws)
          (new_buffer small, ([], 1))
        ++ arrivals events)
run-in_order_example =
    run-in_order (channel_sink channel) (channel_sink-OrderedSink channel laws) events
      (new_buffer small) ([], 1)
