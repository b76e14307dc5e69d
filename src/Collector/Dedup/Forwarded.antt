-- ===== src/Collector/Dedup/Forwarded.antt =====
-- What the engine of crates/tlapix-collector/src/dedup.rs forwards, while its cache is large enough.
use tlapix.Common.{
  ℕ, zero, suc, ◌+◌, ◌≤◌, ◌≡◌, refl, ap, ◌∙◌, Bool, true, false, ◌||◌, List, [], ◌∷◌, if◌then◌else◌,
  bytes_eq, bytes_eq_iff, Bool-cases, inl, inr, length, take, arith,
}
use tlapix.Common.Int.{ℤ}
use tlapix.Types.{Fingerprint, CertificateMetadata}
use tlapix.Storage.Rows.{Json}
use tlapix.Storage.Database.{Database}
use tlapix.Collector.Channel.{Channel}
use tlapix.Collector.Dedup.{
  LruCache, CollectorEvent, DeduplicationEngine, EventTimes, is_some, handle_duplicate, handle_new,
  handle_event, handle_events,
}

abbrev pub member : Fingerprint → List Fingerprint → Bool
member fp [] = false
member fp (x ∷ xs) = bytes_eq x fp || member fp xs

abbrev pub remove : Fingerprint → List Fingerprint → List Fingerprint
remove fp [] = []
remove fp (x ∷ xs) = let rest = remove fp xs in if bytes_eq x fp then xs else x ∷ rest

-- What the crate documents: the entries by their use, the latest first; a lookup moves its entry to the
-- front; so does a put, which drops the last entry when there are too many.
pub record LruLaws {L : Type 0} (lru : LruCache L) : Type 0 where
  pub entries : L → List Fingerprint
  pub new : (n : ℕ) → (entries (lru.new n) ≡ []) × (lru.cap (lru.new n) ≡ n)
  pub found : (fp : Fingerprint) (l : L) → is_some (lru.get fp l).0 ≡ member fp (entries l)
  pub get :
      (fp : Fingerprint) (l : L)
      → entries (lru.get fp l).1
        ≡ (if member fp (entries l) then fp ∷ remove fp (entries l) else entries l)
  pub put :
      (fp : Fingerprint) (t : ℤ) (l : L)
      → entries (lru.put fp t l) ≡ take (lru.cap l) (fp ∷ remove fp (entries l))
  pub get-cap : (fp : Fingerprint) (l : L) → lru.cap (lru.get fp l).1 ≡ lru.cap l
  pub put-cap : (fp : Fingerprint) (t : ℤ) (l : L) → lru.cap (lru.put fp t l) ≡ lru.cap l

-- The certificates of the events whose fingerprint is not among those seen before.
abbrev pub unseen : List Fingerprint → List (EventTimes × CollectorEvent) → List CertificateMetadata
unseen seen [] = []
unseen seen ((times, event) ∷ events) =
    let repeated = unseen seen events in
    let new = unseen (event.metadata.fingerprint ∷ seen) events in
    if member event.metadata.fingerprint seen then repeated else event.metadata ∷ new

pub length-remove :
    (fp : Fingerprint) (l : List Fingerprint)
    → member fp l ≡ true
    → suc (length (remove fp l)) ≡ length l
length-remove fp [] h = absurd (ground arith)
length-remove fp (x ∷ l) h = ground (arith, length-remove fp l)

pub remove_absent :
    (fp : Fingerprint) (l : List Fingerprint) → member fp l ≡ false → remove fp l ≡ l
remove_absent fp [] h = refl
remove_absent fp (x ∷ l) h = ground (arith, remove_absent fp l)

-- Moving an entry to the front changes no membership.
pub member-front :
    (q fp : Fingerprint) (l : List Fingerprint)
    → member fp l ≡ true
    → member q (fp ∷ remove fp l) ≡ member q l
member-front q fp [] h = absurd (ground arith)
member-front q fp (x ∷ l) h = ground (arith, member-front q fp l, bytes_eq_iff x fp)

pub take_all {ℓ} : {A : Type ℓ} (n : ℕ) (l : List A) → length l ≤ n → take n l ≡ l
take_all zero [] h = refl
take_all (suc n) [] h = refl
take_all zero (x ∷ l) h = absurd (omega arith)
take_all (suc n) (x ∷ l) h = ap (λ rest. x ∷ rest) (take_all n l (omega arith))

abbrev pub send_all : {C : Type 0} → Channel C → List CertificateMetadata → C → C
send_all channel [] out = out
send_all channel (m ∷ metadata) out = send_all channel metadata (channel.send m out).1

module _ {L : Type 0} (lru : LruCache L) (laws : LruLaws lru) where
  -- The cache holds the fingerprints that were seen, each once.
  abbrev pub Knows : List Fingerprint → L → Type 0
  Knows seen l =
      ((q : Fingerprint) → member q (laws.entries l) ≡ member q seen)
      × (length (laws.entries l) ≡ length seen)

  front-Knows :
      (seen : List Fingerprint) (fp : Fingerprint) (l l' : L)
      → member fp seen ≡ true
      → laws.entries l' ≡ fp ∷ remove fp (laws.entries l)
      → Knows seen l
      → Knows seen l'
  front-Knows seen fp l l' old moved (same, size) = (
    (λ q. ap (member q) moved ∙ member-front q fp (laws.entries l) there ∙ same q),
    ap length moved ∙ length-remove fp (laws.entries l) there ∙ size,
  )
    where
      there : member fp (laws.entries l) ≡ true
      there = same fp ∙ old

  get-Knows :
      (seen : List Fingerprint) (fp : Fingerprint) (l : L)
      → Knows seen l
      → Knows seen (lru.get fp l).1
  get-Knows seen fp l (same, size) = elim (Bool-cases (member fp seen)) [
    | inl old ↦ front-Knows seen fp l _ old (laws.get fp l ∙ rw (same fp, old) refl) (same, size)
    | inr new ↦
        let kept = laws.get fp l ∙ rw (same fp, new) refl in
        ((λ q. ap (member q) kept ∙ same q), ap length kept ∙ size)
  ]

  put_known-Knows :
      (seen : List Fingerprint) (fp : Fingerprint) (t : ℤ) (l : L)
      → member fp seen ≡ true
      → length seen ≤ lru.cap l
      → Knows seen l
      → Knows seen (lru.put fp t l)
  put_known-Knows seen fp t l old room (same, size) =
      front-Knows seen fp l _ old
        (laws.put fp t l
          ∙ take_all (lru.cap l) (fp ∷ remove fp (laws.entries l))
              (omega (arith, length-remove fp (laws.entries l) (same fp ∙ old), size, room)))
        (same, size)

  pub put_new-Knows :
      (seen : List Fingerprint) (fp : Fingerprint) (t : ℤ) (l : L)
      → member fp seen ≡ false
      → suc (length seen) ≤ lru.cap l
      → Knows seen l
      → Knows (fp ∷ seen) (lru.put fp t l)
  put_new-Knows seen fp t l new room (same, size) = (
    (λ q. ap (member q) added ∙ ap (λ b. bytes_eq fp q || b) (same q)),
    ap length added ∙ ap suc size,
  )
    where
      added : laws.entries (lru.put fp t l) ≡ fp ∷ laws.entries l
      added =
          laws.put fp t l
          ∙ ap (λ rest. take (lru.cap l) (fp ∷ rest))
              (remove_absent fp (laws.entries l) (same fp ∙ new))
          ∙ take_all (lru.cap l) (fp ∷ laws.entries l) (omega (arith, size, room))

  module _ {F C : Type 0} (json : Json) (channel : Channel C) where
    -- With a cache that holds what was seen before and has room for what is new, the engine forwards
    -- exactly the certificates with new fingerprints, once each and in the order in which they came,
    -- whatever fails in the storage.
    pub handle_events-forwards :
        (seen : List Fingerprint) (events : List (EventTimes × CollectorEvent))
        (engine : DeduplicationEngine L) (db : Database F) (out : C)
        → Knows seen engine.cache
        → length seen + length (unseen seen events) ≤ lru.cap engine.cache
        → (handle_events lru json channel events (engine, db, out)).2
          ≡ send_all channel (unseen seen events) out
    unfolding handle_events handle_event handle_duplicate handle_new
    handle_events-forwards seen [] engine db out knows room = refl
    handle_events-forwards seen ((times, event) ∷ events) engine db out (same, size) room =
        let fp = event.metadata.fingerprint in
        let knows = get-Knows seen fp engine.cache (same, size) in
        let kept = laws.get-cap fp engine.cache in
        elim (Bool-cases (member fp seen)) [
          | inl old ↦
              rw (handle_events, handle_event, laws.found fp engine.cache, same fp, old)
                (handle_events-forwards seen events _ _ out
                  (put_known-Knows seen fp times.now_ms _ old
                    (rw kept (omega (arith, old_room old))) knows)
                  (rw (laws.put-cap fp times.now_ms (lru.get fp engine.cache).1, kept)
                    (old_room old)))
          | inr new ↦
              rw (handle_events, handle_event, laws.found fp engine.cache, same fp, new)
                (handle_events-forwards (fp ∷ seen) events _ _ _
                  (put_new-Knows seen fp times.now_ms _ new (rw kept (omega (arith, new_room new)))
                    knows)
                  (rw (laws.put-cap fp times.now_ms (lru.get fp engine.cache).1, kept)
                    (new_room new)))
        ]
      where
        old_room :
            member event.metadata.fingerprint seen ≡ true
            → length seen + length (unseen seen events) ≤ lru.cap engine.cache
        old_room old = ground arith

        new_room :
            member event.metadata.fingerprint seen ≡ false
            → suc (length seen) + length (unseen (event.metadata.fingerprint ∷ seen) events)
              ≤ lru.cap engine.cache
        new_room new = ground arith
