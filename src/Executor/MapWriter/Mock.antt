-- ===== src/Executor/MapWriter/Mock.antt =====
-- `MockBpfMapWriter` of crates/tlapix-executor/src/map_writer.rs: a map in memory, which keeps the
-- promises that the service relies on. A hash map is an association list whose keys differ.
use tlapix.Common.{
  ℕ, suc, ◌≤◌, ◌≡◌, ◌≢◌, ◌⊎◌, inl, inr, refl, ap, ◌∙◌, Bool, true, false, not, ◌&&◌, Option, none,
  some, List, [], ◌∷◌, leb, if◌then◌else◌, bytes_eq, bytes_eq_iff, bytes_eq_refl, length,
  Bool-cases, Option-cases, Result, ok, err, arith,
}
use tlapix.Common.Text.{Text}
use tlapix.Types.{Fingerprint}
use tlapix.Ebpf.Maps.{BpfActionEntry}
use tlapix.Executor.MapWriter.{MapWriteError, map_full, write_failed, BpfMapWriter}
use tlapix.Executor.MapWriter.Capacity.{CountLaws}

abbrev pub Entries : Type 0
Entries = List (Fingerprint × BpfActionEntry)

unfoldable pub lookup : Fingerprint → Entries → Option BpfActionEntry
lookup fp [] = none
lookup fp ((key, entry) ∷ rest) = if bytes_eq fp key then some entry else lookup fp rest

unfoldable pub contains_key : Fingerprint → Entries → Bool
contains_key fp [] = false
contains_key fp ((key, entry) ∷ rest) = if bytes_eq fp key then true else contains_key fp rest

unfoldable pub insert : Fingerprint → BpfActionEntry → Entries → Entries
insert fp new [] = (fp, new) ∷ []
insert fp new ((key, entry) ∷ rest) =
    if bytes_eq fp key then (key, new) ∷ rest else (key, entry) ∷ insert fp new rest

unfoldable pub remove : Fingerprint → Entries → Entries
remove fp [] = []
remove fp ((key, entry) ∷ rest) = if bytes_eq fp key then rest else (key, entry) ∷ remove fp rest

pub record MockMap : Type 0 where
  pub entries : Entries
  pub max_entries : ℕ
  pub fail_writes : Option Text

unfoldable pub mock_write :
    Fingerprint → BpfActionEntry → MockMap → Result MapWriteError (Unit {0}) × MockMap
unfolding insert contains_key
mock_write fp entry m = elim m.fail_writes [
  | some reason ↦ (err (write_failed reason), m)
  | none ↦
      if leb m.max_entries (length m.entries) && not (contains_key fp m.entries)
      then (err (map_full (length m.entries) m.max_entries), m)
      else (ok tt, record m { entries = insert fp entry m.entries })
]

unfoldable pub mock_remove : Fingerprint → MockMap → Result MapWriteError (Unit {0}) × MockMap
unfolding remove
mock_remove fp m = elim m.fail_writes [
  | some reason ↦ (err (write_failed reason), m)
  | none ↦ (ok tt, record m { entries = remove fp m.entries })
]

abbrev pub mock_writer : BpfMapWriter MockMap
mock_writer = record {
  write_entry = mock_write;
  remove_entry = mock_remove;
  entry_count = λ m. length m.entries;
  is_full = λ m. leb m.max_entries (length m.entries);
}

lookup-insert-same :
    (fp : Fingerprint) (new : BpfActionEntry) (l : Entries) → lookup fp (insert fp new l) ≡ some new
unfolding lookup insert
lookup-insert-same fp new [] = rw (bytes_eq_refl fp)
lookup-insert-same fp new ((key, entry) ∷ rest) = ground (arith, lookup-insert-same fp new rest)

lookup-insert-other :
    (fp other : Fingerprint) (new : BpfActionEntry) (l : Entries)
    → other ≢ fp
    → lookup other (insert fp new l) ≡ lookup other l
unfolding lookup insert
lookup-insert-other fp other new [] ne = ground (arith, bytes_eq_iff other fp)
lookup-insert-other fp other new ((key, entry) ∷ rest) ne =
    ground
      (arith, bytes_eq_iff fp key, bytes_eq_iff other key, lookup-insert-other fp other new rest ne)

length-insert :
    (fp : Fingerprint) (new : BpfActionEntry) (l : Entries)
    → length (insert fp new l) ≡ (if contains_key fp l then length l else suc (length l))
unfolding insert contains_key
length-insert fp new [] = refl
length-insert fp new ((key, entry) ∷ rest) = ground (arith, length-insert fp new rest)

write_fails :
    (fp : Fingerprint) (entry : BpfActionEntry) (m : MockMap) {reason : Text}
    → m.fail_writes ≡ some reason
    → mock_write fp entry m ≡ (err (write_failed reason), m)
unfolding mock_write
write_fails fp entry m h = cc

write_refused :
    (fp : Fingerprint) (entry : BpfActionEntry) (m : MockMap)
    → m.fail_writes ≡ none
    → (leb m.max_entries (length m.entries) && not (contains_key fp m.entries)) ≡ true
    → mock_write fp entry m ≡ (err (map_full (length m.entries) m.max_entries), m)
unfolding mock_write
write_refused fp entry m h is_full = cc

write_taken :
    (fp : Fingerprint) (entry : BpfActionEntry) (m : MockMap)
    → m.fail_writes ≡ none
    → (leb m.max_entries (length m.entries) && not (contains_key fp m.entries)) ≡ false
    → mock_write fp entry m ≡ (ok tt, record m { entries = insert fp entry m.entries })
unfolding mock_write
write_taken fp entry m h room = cc

-- What a write does to the map: the entry is found under its key and every other key keeps its own, and
-- a map within its size stays within it; or the write fails, and the map is as it was.
pub mock_write_cases :
    (fp : Fingerprint) (entry : BpfActionEntry) (m : MockMap)
    → (((mock_write fp entry m).0 ≡ ok tt)
        × (lookup fp (mock_write fp entry m).1.entries ≡ some entry)
        × ((other : Fingerprint)
            → other ≢ fp
            → lookup other (mock_write fp entry m).1.entries ≡ lookup other m.entries)
        × (length m.entries ≤ m.max_entries
            → length (mock_write fp entry m).1.entries ≤ m.max_entries))
      ⊎ ((e : MapWriteError) × ((mock_write fp entry m) ≡ (err e, m)))
mock_write_cases fp entry m = elim (Option-cases m.fail_writes) [
  | inr (reason, fails) ↦ inr (write_failed reason, write_fails fp entry m fails)
  | inl works ↦
      elim (Bool-cases (leb m.max_entries (length m.entries) && not (contains_key fp m.entries))) [
        | inl is_full ↦
            inr (map_full (length m.entries) m.max_entries, write_refused fp entry m works is_full)
        | inr room ↦
            let done : mock_write fp entry m
                ≡ (ok tt, record m { entries = insert fp entry m.entries }) =
              write_taken fp entry m works room in
            inl (
              ap (λ r. r.0) done,
              ap (λ r. lookup fp r.1.entries) done ∙ lookup-insert-same fp entry m.entries,
              λ other ne.
                  ap (λ r. lookup other r.1.entries) done
                  ∙ lookup-insert-other fp other entry m.entries ne,
              λ le. rw done (ground (arith, length-insert fp entry m.entries)),
            )
      ]
]

pub mock-adds_one :
    (fp : Fingerprint) (entry : BpfActionEntry) (m : MockMap)
    → length (mock_write fp entry m).1.entries ≤ suc (length m.entries)
unfolding mock_write
mock-adds_one fp entry m = elim (Option-cases m.fail_writes) [
  | inl works ↦ ground (arith, length-insert fp entry m.entries)
  | inr (reason, fails) ↦ ground arith
]

pub mock-failure_adds_none :
    (fp : Fingerprint) (entry : BpfActionEntry) (m : MockMap) {e : MapWriteError}
    → (mock_write fp entry m).0 ≡ err e
    → length (mock_write fp entry m).1.entries ≤ length m.entries
unfolding mock_write
mock-failure_adds_none fp entry m h = elim (Option-cases m.fail_writes) [
  | inl works ↦ ground arith
  | inr (reason, fails) ↦ ground arith
]

abbrev pub mock-CountLaws : CountLaws mock_writer
mock-CountLaws = record { adds_one = mock-adds_one; failure_adds_none = mock-failure_adds_none }
