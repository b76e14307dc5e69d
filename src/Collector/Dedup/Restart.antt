-- ===== src/Collector/Dedup/Restart.antt =====
-- After a restart the engine of crates/tlapix-collector/src/dedup.rs knows what the storage has.
use tlapix.Common.{
  ℕ, suc, ◌+◌, ◌^◌, ◌≤◌, ◌<◌, ◌≡◌, refl, ap, sym, ◌∙◌, Bool, false, ◌||◌, List, [], ◌∷◌, map, ltb,
  ◌==◌, bytes_eq, bytes_eq_iff, Bool-cases, inl, inr, length, ok, arith,
}
use tlapix.Common.Int.{ℤ, ltb_ℤ}
use tlapix.Types.{Fingerprint}
use tlapix.Storage.Rows.{Json, CertificateRow}
use tlapix.Storage.Sql.{exists, is_key, insert_desc, order_by_desc, limit_rows, IsUnique}
use tlapix.Storage.Database.{Database, blocking, Quiet}
use tlapix.Storage.Certificates.{cert_key, list_recent_fingerprints}
use tlapix.Collector.Channel.{Channel}
use tlapix.Collector.Dedup.{
  LruCache, CollectorEvent, DeduplicationEngine, EventTimes, new_engine, put_reversed,
  reload_from_storage, handle_events,
}
use tlapix.Collector.Dedup.Forwarded.{
  member, LruLaws, unseen, take_all, Knows, put_new-Knows, send_all, handle_events-forwards,
}

exists-insert :
    (p : CertificateRow → Bool) (k : CertificateRow → ℤ) (r : CertificateRow)
    (rows : List CertificateRow)
    → exists p (insert_desc k r rows) ≡ (p r || exists p rows)
unfolding exists insert_desc
exists-insert p k r [] = refl
exists-insert p k r (q ∷ rows) = ground (arith, exists-insert p k r rows)

exists-order :
    (p : CertificateRow → Bool) (k : CertificateRow → ℤ) (rows : List CertificateRow)
    → exists p (order_by_desc k rows) ≡ exists p rows
unfolding exists order_by_desc
exists-order p k [] = refl
exists-order p k (r ∷ rows) =
    exists-insert p k r (order_by_desc k rows) ∙ ap (λ b. p r || b) (exists-order p k rows)

length-insert :
    (k : CertificateRow → ℤ) (r : CertificateRow) (rows : List CertificateRow)
    → length (insert_desc k r rows) ≡ suc (length rows)
unfolding insert_desc
length-insert k r [] = refl
length-insert k r (q ∷ rows) = ground (arith, length-insert k r rows)

length-order :
    (k : CertificateRow → ℤ) (rows : List CertificateRow)
    → length (order_by_desc k rows) ≡ length rows
unfolding order_by_desc
length-order k [] = refl
length-order k (r ∷ rows) = length-insert k r (order_by_desc k rows) ∙ ap suc (length-order k rows)

insert-IsUnique :
    (k : CertificateRow → ℤ) (r : CertificateRow) (rows : List CertificateRow)
    → exists (is_key cert_key (cert_key r)) rows ≡ false
    → IsUnique cert_key rows
    → IsUnique cert_key (insert_desc k r rows)
unfolding insert_desc exists
insert-IsUnique k r [] fresh u = (refl, tt)
insert-IsUnique k r (q ∷ rows) fresh (old, u) = elim (Bool-cases (ltb_ℤ (k r) (k q))) [
  | inl later ↦ rw later (
    ground (
      arith,
      exists-insert (is_key cert_key (cert_key q)) k r rows,
      bytes_eq_iff r.fingerprint q.fingerprint,
      bytes_eq_iff q.fingerprint r.fingerprint,
    ),
    insert-IsUnique k r rows (ground arith) u,
  )
  | inr first ↦ rw first (fresh, (old, u))
]

order-IsUnique :
    (k : CertificateRow → ℤ) (rows : List CertificateRow)
    → IsUnique cert_key rows
    → IsUnique cert_key (order_by_desc k rows)
unfolding order_by_desc
order-IsUnique k [] u = tt
order-IsUnique k (r ∷ rows) (fresh, u) =
    insert-IsUnique k r (order_by_desc k rows)
      (exists-order (is_key cert_key (cert_key r)) k rows ∙ fresh) (order-IsUnique k rows u)

member-keys :
    (fp : Fingerprint) (rows : List CertificateRow)
    → member fp (map cert_key rows) ≡ exists (is_key cert_key fp) rows
unfolding exists
member-keys fp [] = refl
member-keys fp (r ∷ rows) = ap (λ b. bytes_eq r.fingerprint fp || b) (member-keys fp rows)

length-keys : (rows : List CertificateRow) → length (map cert_key rows) ≡ length rows
length-keys [] = refl
length-keys (r ∷ rows) = ap suc (length-keys rows)

module _ {L : Type 0} (lru : LruCache L) (laws : LruLaws lru) where
  put_reversed-cap :
      (now : ℤ) (fps : List Fingerprint) (l : L) → lru.cap (put_reversed lru now fps l) ≡ lru.cap l
  unfolding put_reversed
  put_reversed-cap now [] l = refl
  put_reversed-cap now (fp ∷ fps) l =
      laws.put-cap fp now (put_reversed lru now fps l) ∙ put_reversed-cap now fps l

  put_reversed-Knows :
      (now : ℤ) (rows : List CertificateRow) (l : L)
      → Knows lru laws [] l
      → IsUnique cert_key rows
      → length rows ≤ lru.cap l
      → Knows lru laws (map cert_key rows) (put_reversed lru now (map cert_key rows) l)
  unfolding put_reversed
  put_reversed-Knows now [] l empty u room = empty
  put_reversed-Knows now (r ∷ rows) l empty (fresh, u) room =
      put_new-Knows lru laws (map cert_key rows) r.fingerprint now _
        (member-keys r.fingerprint rows ∙ fresh)
        (omega (arith, room, length-keys rows, put_reversed-cap now (map cert_key rows) l))
        (put_reversed-Knows now rows l empty u (omega (arith, room)))

  listed_all :
      (n : ℕ) (rows : List CertificateRow)
      → length rows ≤ n
      → limit_rows n (order_by_desc (λ r. r.last_seen) rows) ≡ order_by_desc (λ r. r.last_seen) rows
  unfolding limit_rows
  listed_all n rows room = elim (Bool-cases (ltb n (2 ^ 63))) [
    | inl small ↦
        rw small (take_all n _ (omega (arith, room, length-order (λ r. r.last_seen) rows)))
    | inr large ↦ rw large refl
  ]

  -- The order in which the rows are put does not matter.
  ordered-Knows :
      (rows : List CertificateRow) (l : L)
      → Knows lru laws (map cert_key (order_by_desc (λ r. r.last_seen) rows)) l
      → Knows lru laws (map cert_key rows) l
  ordered-Knows rows l (same, size) = (
    (λ q.
        same q
        ∙ member-keys q (order_by_desc (λ r. r.last_seen) rows)
        ∙ exists-order (is_key cert_key q) (λ r. r.last_seen) rows
        ∙ sym (member-keys q rows)),
    size
        ∙ length-keys (order_by_desc (λ r. r.last_seen) rows)
        ∙ length-order (λ r. r.last_seen) rows
        ∙ sym (length-keys rows),
  )

  loaded : {F : Type 0} → ℤ → DeduplicationEngine L → Database F → DeduplicationEngine L
  loaded now engine db = record engine {
    cache =
        put_reversed lru now (map cert_key (order_by_desc (λ r. r.last_seen) db.certificates))
          engine.cache;
  }

  reload_lem :
      {F : Type 0} (now : ℤ) (engine : DeduplicationEngine L) (db : Database F)
      → Quiet db
      → length db.certificates ≤ lru.cap engine.cache
      → reload_from_storage lru now (engine, db)
        ≡ (ok (length db.certificates), (loaded now engine db, record db { faults = [] }))
  unfolding reload_from_storage list_recent_fingerprints blocking loaded
  reload_lem now engine db quiet room =
      rw (quiet, listed_all (lru.cap engine.cache) db.certificates room)
        (ap (λ n. (ok n, (loaded now engine db, record db { faults = [] })))
          (length-keys (order_by_desc (λ r. r.last_seen) db.certificates)
            ∙ length-order (λ r. r.last_seen) db.certificates))

  loaded-Knows :
      {F : Type 0} (now : ℤ) (engine : DeduplicationEngine L) (db : Database F)
      → Knows lru laws [] engine.cache
      → IsUnique cert_key db.certificates
      → length db.certificates ≤ lru.cap engine.cache
      → Knows lru laws (map cert_key db.certificates) (loaded now engine db).cache
  unfolding loaded
  loaded-Knows now engine db empty u room = ordered-Knows db.certificates _ (
      put_reversed-Knows now (order_by_desc (λ r. r.last_seen) db.certificates) engine.cache empty
        (order-IsUnique (λ r. r.last_seen) db.certificates u)
        (omega (arith, room, length-order (λ r. r.last_seen) db.certificates)))

  new_engine_lem :
      (capacity : ℕ)
      → 0 < capacity
      → Knows lru laws [] (new_engine lru capacity).cache
        × (lru.cap (new_engine lru capacity).cache ≡ capacity)
  unfolding new_engine
  new_engine_lem capacity some_room = elim (Bool-cases (capacity == 0)) [
    | inl zero_capacity ↦ absurd (ground arith)
    | inr positive ↦ rw positive (
      ((λ q. ap (member q) (laws.new capacity).0), ap length (laws.new capacity).0),
      (laws.new capacity).1,
    )
  ]

  module _ {F C : Type 0} (json : Json) (channel : Channel C) where
    -- Where the listing of the storage does not fail, its fingerprints are unique and the cache has room for
    -- what is stored and for what is new, an engine that starts with a reload has the number of stored
    -- certificates as its answer, and then forwards exactly the certificates whose fingerprints are not
    -- stored, once each and in the order in which they came.
    pub reload_from_storage-forwards :
        (now : ℤ) (capacity : ℕ) (events : List (EventTimes × CollectorEvent)) (db : Database F)
        (out : C)
        → Quiet db
        → IsUnique cert_key db.certificates
        → 0 < capacity
        → length db.certificates + length (unseen (map cert_key db.certificates) events) ≤ capacity
        → ((reload_from_storage lru now (new_engine lru capacity, db)).0
            ≡ ok (length db.certificates))
          × ((handle_events lru json channel events (
            (reload_from_storage lru now (new_engine lru capacity, db)).1.0,
            (reload_from_storage lru now (new_engine lru capacity, db)).1.1,
            out,
          )).2
              ≡ send_all channel (unseen (map cert_key db.certificates) events) out)
    unfolding loaded
    reload_from_storage-forwards now capacity events db out quiet u some_room room =
        rw (reload_lem now (new_engine lru capacity) db quiet fits) (
          refl,
          handle_events-forwards lru laws json channel (map cert_key db.certificates) events
              (loaded now (new_engine lru capacity) db) _ out
              (loaded-Knows now (new_engine lru capacity) db fresh.0 u fits)
              (omega (
                arith,
                room,
                fresh.1,
                length-keys db.certificates,
                put_reversed-cap now
                    (map cert_key (order_by_desc (λ r. r.last_seen) db.certificates))
                    (new_engine lru capacity).cache,
              )),
        )
      where
        fresh :
            Knows lru laws [] (new_engine lru capacity).cache
            × (lru.cap (new_engine lru capacity).cache ≡ capacity)
        fresh = new_engine_lem capacity some_room

        fits : length db.certificates ≤ lru.cap (new_engine lru capacity).cache
        fits = rw fresh.1 (omega (arith, room))
