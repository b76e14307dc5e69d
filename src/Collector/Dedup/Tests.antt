-- ===== src/Collector/Dedup/Tests.antt =====
-- An LRU cache as a list, runs of the engine over it, and the theorems at them.
use tlapix.Common.{
  ℕ, ◌+◌, ◌≡◌, ◌≤◌, refl, true, false, none, some, List, [], ◌∷◌, ◌++◌, map, length, take,
  if◌then◌else◌, ok, replicate, arith,
}
use tlapix.Common.Int.{pos}
use tlapix.Types.{Fingerprint, CertificateMetadata}
use tlapix.Storage.Sql.{IsUnique}
use tlapix.Storage.Certificates.{cert_key}
use tlapix.Storage.Tests.{programs, json, certificate, two_certificates}
use tlapix.Collector.Channel.{Channel}
use tlapix.Collector.Dedup.{
  LruCache, CollectorEvent, DeduplicationEngine, EventTimes, new_engine, mark_seen,
  reload_from_storage, handle_duplicate, handle_new, handle_event, handle_events,
}
use tlapix.Collector.Dedup.Forwarded.{
  member, remove, LruLaws, unseen, send_all, handle_events-forwards,
}
use tlapix.Collector.Dedup.Restart.{reload_from_storage-forwards}

-- The capacity and the entries, the latest first.
abbrev Cache : Type 0
Cache = ℕ × List Fingerprint

abbrev lru : LruCache Cache
lru = record {
  new = λ n. (n, []);
  get = λ fp (n, l). if member fp l then (some (pos 0), (n, fp ∷ remove fp l)) else (none, (n, l));
  put = λ fp t (n, l). (n, take n (fp ∷ remove fp l));
  len = λ l. length l.1;
  cap = λ l. l.0;
}

list_laws : LruLaws lru
list_laws = record {
  entries = λ l. l.1;
  new = λ n. (refl, refl);
  found = λ fp l. ground arith;
  get = λ fp l. ground arith;
  put = λ fp t l. refl;
  get-cap = λ fp l. ground arith;
  put-cap = λ fp t l. refl;
}

-- A channel that keeps everything.
abbrev channel : Channel (List CertificateMetadata)
channel = record { send = λ m out. (true, out ++ m ∷ []); is_closed = λ out. false }

abbrev event : ℕ → EventTimes × CollectorEvent
event n = (
  record { now_ms = pos 5; storage_ms = pos 5 },
  record { metadata = certificate n; is_truncated = false; is_new = true },
)

abbrev events : List (EventTimes × CollectorEvent)
events = event 1 ∷ event 3 ∷ event 3 ∷ event 1 ∷ []

forwarded_run :
    (handle_events lru json channel events (new_engine lru 2, two_certificates, [])).2
    ≡ certificate 1 ∷ certificate 3 ∷ []
unfolding programs new_engine handle_duplicate handle_new handle_event handle_events
forwarded_run = refl

zero_capacity_run : (new_engine lru 0).cache.0 ≡ 100000
unfolding new_engine
zero_capacity_run = refl

mark_seen_run : (mark_seen lru (pos 1) (replicate 32 1) (new_engine lru 1)).0 ≡ true
unfolding programs new_engine mark_seen
mark_seen_run = refl

room_for_two : 0 + length (unseen [] events) ≤ 2
unfolding programs
room_for_two = omega arith

abbrev empty_engine : DeduplicationEngine Cache
empty_engine = record {
  cache = (2, []);
  stats = record { total_events = 0; unique_forwarded = 0; duplicates_seen = 0 };
}

handle_events-forwards_example :
    (handle_events lru json channel events (empty_engine, two_certificates, [])).2
    ≡ send_all channel (unseen [] events) []
unfolding list_laws
handle_events-forwards_example =
    handle_events-forwards lru list_laws json channel [] events empty_engine two_certificates []
      ((λ q. refl), refl) room_for_two

certificates-IsUnique : IsUnique cert_key two_certificates.certificates
unfolding programs
certificates-IsUnique = (refl, (refl, tt))

room_for_three :
    length two_certificates.certificates
      + length (unseen (map cert_key two_certificates.certificates) events)
    ≤ 3
unfolding programs
room_for_three = omega arith

reload_from_storage-forwards_example :
    ((reload_from_storage lru (pos 4) (new_engine lru 3, two_certificates)).0 ≡ ok 2)
    × ((handle_events lru json channel events (
      (reload_from_storage lru (pos 4) (new_engine lru 3, two_certificates)).1.0,
      (reload_from_storage lru (pos 4) (new_engine lru 3, two_certificates)).1.1,
      [],
    )).2
        ≡ send_all channel (unseen (map cert_key two_certificates.certificates) events) [])
unfolding list_laws
reload_from_storage-forwards_example =
    reload_from_storage-forwards lru list_laws json channel (pos 4) 3 events two_certificates []
      refl certificates-IsUnique (omega arith) room_for_three
