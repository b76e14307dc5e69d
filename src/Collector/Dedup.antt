-- ===== src/Collector/Dedup.antt =====
-- crates/tlapix-collector/src/dedup.rs: the cache of fingerprints that were seen. The LRU cache is a third
-- party's and a parameter; each reading of the clock is an argument; log lines are left out.
pub mod Forwarded
pub mod Restart
mod Tests
use tlapix.Common.{
  ℕ, suc, ◌+◌, ◌%◌, ◌^◌, Bool, true, false, not, Option, none, some, List, [], ◌∷◌, ◌++◌, ◌==◌,
  if◌then◌else◌, length, Result, ok, err, Exec,
}
use tlapix.Common.Int.{ℤ}
use tlapix.Types.{Fingerprint, CertificateMetadata}
use tlapix.Storage.Rows.{Json}
use tlapix.Storage.Database.{StorageError, Database, Db}
use tlapix.Storage.Certificates.{list_recent_fingerprints, touch_certificate, upsert_certificate}
use tlapix.Collector.Channel.{Channel}

-- The operations of the cache. A lookup changes the order of use.
pub record LruCache (L : Type 0) : Type 0 where
  pub new : ℕ → L
  pub get : Fingerprint → L → Option ℤ × L
  pub put : Fingerprint → ℤ → L → L
  pub len : L → ℕ
  pub cap : L → ℕ

pub record CollectorEvent : Type 0 where
  pub metadata : CertificateMetadata
  pub is_truncated : Bool
  pub is_new : Bool

pub record DeduplicationStats : Type 0 where
  pub total_events : ℕ
  pub unique_forwarded : ℕ
  pub duplicates_seen : ℕ

abbrev pub default_cache_capacity : ℕ
default_cache_capacity = 100000

pub record DeduplicationEngine (L : Type 0) : Type 0 where
  pub cache : L
  pub stats : DeduplicationStats

-- `fetch_add(1)` of an AtomicU64.
abbrev pub fetch_add_one : ℕ → ℕ
fetch_add_one n = (n + 1) % 2 ^ 64

abbrev pub is_some : {A : Type 0} → Option A → Bool
is_some none = false
is_some (some a) = true

-- What `handle_event` works on: the engine, the storage and the channel to the analyzer.
abbrev pub Pipeline : Type 0 → Type 0 → Type 0 → Type 0
Pipeline L F C = DeduplicationEngine L × Database F × C

-- The readings of the clock for one event: of the engine and of the storage.
pub record EventTimes : Type 0 where
  pub now_ms : ℤ
  pub storage_ms : ℤ

module _ {L : Type 0} (lru : LruCache L) where
  -- No capacity is the default one.
  unfoldable pub new_engine : ℕ → DeduplicationEngine L
  new_engine capacity = record {
    cache = lru.new (if capacity == 0 then default_cache_capacity else capacity);
    stats = record { total_events = 0; unique_forwarded = 0; duplicates_seen = 0 };
  }

  unfoldable pub is_seen : Fingerprint → DeduplicationEngine L → Bool × DeduplicationEngine L
  is_seen fp engine =
      let (found, cache) = lru.get fp engine.cache in
      (is_some found, record engine { cache = cache })

  unfoldable pub mark_seen : ℤ → Fingerprint → DeduplicationEngine L → Bool × DeduplicationEngine L
  mark_seen now_ms fp engine =
      let (found, cache) = lru.get fp engine.cache in
      (not (is_some found), record engine { cache = lru.put fp now_ms cache })

  -- `for fp in fingerprints.into_iter().rev()`
  unfoldable pub put_reversed : ℤ → List Fingerprint → L → L
  put_reversed now_ms [] cache = cache
  put_reversed now_ms (fp ∷ fingerprints) cache =
      lru.put fp now_ms (put_reversed now_ms fingerprints cache)

  unfoldable pub reload_from_storage :
      {F : Type 0} → ℤ → Exec (DeduplicationEngine L × Database F) StorageError ℕ
  unfolding list_recent_fingerprints put_reversed
  reload_from_storage now_ms (engine, db) =
      let (listed, db') = list_recent_fingerprints (lru.cap engine.cache) db in
      elim listed [
        | ok fingerprints ↦ (
          ok (length fingerprints),
          (record engine { cache = put_reversed now_ms fingerprints engine.cache }, db'),
        )
        | err e ↦ (err e, (engine, db'))
      ]

  module _ {F C : Type 0} (json : Json) (channel : Channel C) where
    -- A certificate that the cache knows. A failure of the storage is only logged, here and below.
    unfoldable pub handle_duplicate : EventTimes → Fingerprint → Pipeline L F C → Pipeline L F C
    unfolding touch_certificate
    handle_duplicate times fp (engine, db, out) = (
      record engine {
        cache = lru.put fp times.now_ms engine.cache;
        stats = record engine.stats {
          duplicates_seen = fetch_add_one engine.stats.duplicates_seen;
        };
      },
      (touch_certificate times.storage_ms fp times.now_ms db).1,
      out,
    )

    unfoldable pub handle_new : EventTimes → CertificateMetadata → Pipeline L F C → Pipeline L F C
    unfolding upsert_certificate
    handle_new times metadata (engine, db, out) = (
      record engine {
        cache = lru.put metadata.fingerprint times.now_ms engine.cache;
        stats = record engine.stats {
          unique_forwarded = fetch_add_one engine.stats.unique_forwarded;
        };
      },
      (upsert_certificate json times.storage_ms metadata db).1,
      (channel.send metadata out).1,
    )

    unfoldable pub handle_event : EventTimes → CollectorEvent → Pipeline L F C → Pipeline L F C
    unfolding handle_duplicate handle_new
    handle_event times event (engine, db, out) =
        let (found, cache) = lru.get event.metadata.fingerprint engine.cache in
        let counted = record engine {
          cache = cache;
          stats = record engine.stats { total_events = fetch_add_one engine.stats.total_events };
        } in
        if is_some found
        then handle_duplicate times event.metadata.fingerprint (counted, db, out)
        else handle_new times event.metadata (counted, db, out)

    -- The events of a run, in the order in which they are received.
    unfoldable pub handle_events :
        List (EventTimes × CollectorEvent) → Pipeline L F C → Pipeline L F C
    unfolding handle_event
    handle_events [] s = s
    handle_events ((times, event) ∷ events) s = handle_events events (handle_event times event s)
