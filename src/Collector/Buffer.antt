-- ===== src/Collector/Buffer.antt =====
-- crates/tlapix-collector/src/buffer.rs: the buffer that holds records while the analyzer is away.
-- Instants and durations are nanoseconds; the time since an instant that lies ahead is zero, as in
-- tokio. Where an operation reads the clock, the reading is an argument. Counters wrap, as in a
-- release build.
pub mod Window
pub mod Flush
pub mod Runs
use Prim.Native.Nat.{min}
use tlapix.Common.{
  ℕ, suc, ◌+◌, ◌-◌, ◌*◌, ◌%◌, ◌^◌, Bool, true, false, not, ◌&&◌, Option, none, some, List, [], ◌∷◌,
  ◌++◌, leb, if◌then◌else◌, length, Result, ok, err,
}
use tlapix.Common.Text.{is_empty}
use tlapix.Types.{CertificateMetadata}

abbrev pub ns_per_s : ℕ
ns_per_s = 1000000000

abbrev pub initial_retry_interval : ℕ
initial_retry_interval = 30 * ns_per_s

abbrev pub max_buffer_duration : ℕ
max_buffer_duration = 3600 * ns_per_s

abbrev pub max_retry_interval : ℕ
max_retry_interval = 480 * ns_per_s

abbrev pub Records : Type 0
Records = List CertificateMetadata

pub record BufferStats : Type 0 where
  pub buffered_count : ℕ
  pub evicted_count : ℕ
  pub retry_attempts : ℕ
  pub successful_flushes : ℕ
  pub expired_count : ℕ

pub record RetryState : Type 0 where
  pub buffering_started : Option ℕ
  pub last_attempt : Option ℕ
  pub attempt_count : ℕ
  pub current_backoff : ℕ

pub record RetryBufferConfig : Type 0 where
  pub capacity : ℕ
  pub initial_retry_interval : ℕ
  pub max_buffer_duration : ℕ

pub record RetryBuffer : Type 0 where
  pub records : Records
  pub config : RetryBufferConfig
  pub retry_state : RetryState
  pub stats : BufferStats

-- `+= 1` on a counter of 64 bits.
abbrev pub count : ℕ → ℕ
count n = (n + 1) % 2 ^ 64

abbrev pub idle : RetryState
idle = record {
  buffering_started = none;
  last_attempt = none;
  attempt_count = 0;
  current_backoff = initial_retry_interval;
}

-- `RetryState::reset`
unfoldable pub reset : RetryState → RetryState
reset s = idle

abbrev pub or_now : ℕ → Option ℕ → Option ℕ
or_now now none = some now
or_now now (some t) = some t

unfoldable pub record_attempt : ℕ → RetryState → RetryState
record_attempt now s = record {
  buffering_started = or_now now s.buffering_started;
  last_attempt = some now;
  attempt_count = (s.attempt_count + 1) % 2 ^ 32;
  current_backoff = min (s.current_backoff * 2) max_retry_interval;
}

unfoldable pub state_is_expired : ℕ → ℕ → RetryState → Bool
state_is_expired now max_duration s = elim s.buffering_started [
  | none ↦ false
  | some started ↦ leb max_duration (now - started)
]

unfoldable pub should_retry : ℕ → RetryState → Bool
should_retry now s = elim s.last_attempt [
  | none ↦ true
  | some last ↦ leb s.current_backoff (now - last)
]

abbrev pub no_stats : BufferStats
no_stats = record {
  buffered_count = 0;
  evicted_count = 0;
  retry_attempts = 0;
  successful_flushes = 0;
  expired_count = 0;
}

-- `RetryBuffer::new`
abbrev pub new_buffer : RetryBufferConfig → RetryBuffer
new_buffer config = record { records = []; config = config; retry_state = idle; stats = no_stats }

unfoldable pub is_expired : ℕ → RetryBuffer → Bool
unfolding state_is_expired
is_expired now b = state_is_expired now b.config.max_buffer_duration b.retry_state

abbrev pub pop_front : Records → Records
pop_front [] = []
pop_front (r ∷ rs) = rs

-- The record goes in, after the oldest one made room if the buffer is full.
unfoldable pub enqueue : ℕ → CertificateMetadata → Records → Records
enqueue capacity r rs = (if leb capacity (length rs) then pop_front rs else rs) ++ r ∷ []

unfoldable pub push : ℕ → CertificateMetadata → RetryBuffer → RetryBuffer
unfolding is_expired enqueue
push now r b =
    if is_expired now b
    then record b { stats = record b.stats { expired_count = count b.stats.expired_count } }
    else record {
      records = enqueue b.config.capacity r b.records;
      config = b.config;
      retry_state = record b.retry_state {
        buffering_started = or_now now b.retry_state.buffering_started;
      };
      stats = record b.stats {
        evicted_count =
            if leb b.config.capacity (length b.records)
            then count b.stats.evicted_count
            else b.stats.evicted_count;
        buffered_count = length (enqueue b.config.capacity r b.records);
      };
    }

-- The trait, over the state `S` of what is behind it: an error returns the records that were not
-- delivered.
pub record AnalyzerSink (S : Type 0) : Type 0 where
  pub send_batch : Records → S → Result Records (Unit {0}) × S
  pub is_available : S → Bool

-- `for record in remaining.into_iter().rev() { push_front(record) }`
unfoldable pub put_back : Records → Records → Records
put_back [] rs = rs
put_back (r ∷ remaining) rs = r ∷ put_back remaining rs

abbrev pub attempted : ℕ → RetryBuffer → RetryBuffer
attempted now b = record b {
  retry_state = record_attempt now b.retry_state;
  stats = record b.stats { retry_attempts = count b.stats.retry_attempts };
}

-- After the batch was sent, with what the buffer holds while it is away.
unfoldable pub sent : ℕ → RetryBuffer → Result Records (Unit {0}) → Bool × RetryBuffer
unfolding reset put_back record_attempt
sent later b (ok u) = (
  true,
  record {
    records = [];
    config = b.config;
    retry_state = reset b.retry_state;
    stats = record b.stats {
      successful_flushes = count b.stats.successful_flushes;
      buffered_count = 0;
    };
  },
)
sent later b (err remaining) = (
  false,
  record {
    records = put_back remaining [];
    config = b.config;
    retry_state = record_attempt later b.retry_state;
    stats = record b.stats {
      retry_attempts = count b.stats.retry_attempts;
      buffered_count = length (put_back remaining []);
    };
  },
)

module _ {S : Type 0} (sink : AnalyzerSink S) where
  -- `now` is read to see whether the retry is due, `later` when an attempt has failed.
  unfoldable pub try_flush : ℕ → ℕ → RetryBuffer → S → Bool × RetryBuffer × S
  unfolding should_retry record_attempt is_empty sent
  try_flush now later b s =
      if is_empty b.records
      then (true, b, s)
      else if not (should_retry now b.retry_state)
      then (false, b, s)
      else if not (sink.is_available s)
      then (false, attempted later b, s)
      else let (r, s') = sink.send_batch b.records s in
        let (flushed, b') = sent later b r in (flushed, b', s')

  -- One round of `run_flush_loop`, after its sleep: `now` is read for the expiry.
  unfoldable pub flush_round : ℕ → ℕ → ℕ → RetryBuffer → S → RetryBuffer × S
  unfolding is_expired try_flush
  flush_round now due later b s =
      if not (is_empty b.records) && not (is_expired now b)
      then (let (flushed, b', s') = try_flush due later b s in (b', s'))
      else (b, s)

-- `now` is read for the expiry, `later` for the backoff.
unfoldable pub time_until_retry : ℕ → ℕ → RetryBuffer → Option ℕ
unfolding is_expired is_empty
time_until_retry now later b =
    if is_empty b.records
    then none
    else if is_expired now b
    then none
    else elim b.retry_state.last_attempt [
      | none ↦ some 0
      | some last ↦
          if leb b.retry_state.current_backoff (later - last)
          then some 0
          else some (b.retry_state.current_backoff - (later - last))
    ]

-- The sleep of `run_flush_loop` before a round. Its expiry test and those of `time_until_retry` each
-- read the clock.
unfoldable pub sleep_duration : ℕ → ℕ → ℕ → RetryBuffer → ℕ
unfolding time_until_retry
sleep_duration now due later b =
    if is_empty b.records
    then initial_retry_interval
    else if is_expired now b
    then initial_retry_interval
    else elim (time_until_retry due later b) [ none ↦ initial_retry_interval | some d ↦ d ]

-- `RetryBuffer::clear`
unfoldable pub clear : RetryBuffer → RetryBuffer
unfolding reset
clear b = record {
  records = [];
  config = b.config;
  retry_state = reset b.retry_state;
  stats = record b.stats { buffered_count = 0 };
}
