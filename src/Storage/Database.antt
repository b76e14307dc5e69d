-- ===== src/Storage/Database.antt =====
-- The database as its tables, and what every operation of crates/tlapix-common/src/storage.rs shares.
-- A failure of SQLite or of the blocking task is the environment's: `faults` says for each operation to
-- come whether it fails, and with what. After the list they succeed.
use tlapix.Common.{◌≡◌, Option, none, some, List, [], ◌∷◌, err, Exec, Keeps, refl}
use tlapix.Common.Text.{Text}
use tlapix.Storage.Rows.{
  CertificateRow, ActionDirectiveRow, ShadowCertificateRow, AuditLogRow, CertificateInventoryRow,
  InventoryRefreshLogRow, RenewalPredictionRow,
}

-- Errors of SQLite by their kind: a constraint, or another with its text.
pub data SqliteError : Type 0 where
  foreign_key unique : SqliteError
  other : Text → SqliteError

pub data StorageError : Type 0 where
  sqlite : SqliteError → StorageError
  internal : Text → StorageError
  conversion : Text → StorageError

pub record Database (F : Type 0) : Type 0 where
  pub certificates : List CertificateRow
  pub action_directives : List ActionDirectiveRow
  pub shadow_certificates : List ShadowCertificateRow
  pub renewal_predictions : List (RenewalPredictionRow F)
  pub audit_log : List AuditLogRow
  pub certificate_inventory : List CertificateInventoryRow
  pub inventory_refresh_log : List InventoryRefreshLogRow
  pub faults : List (Option StorageError)

-- `StorageResult<A>` of an operation on the database.
abbrev pub Db : Type 0 → Type 0 → Type 0
Db F A = Exec (Database F) StorageError A

module _ {F : Type 0} where
  -- The next operation is over: its fault is used up.
  abbrev pub next : Database F → Database F
  next db = record db { faults = elim db.faults [ [] ↦ [] | f ∷ (rest → ih) ↦ rest ] }

  -- `spawn_blocking(…).await`, around the statement.
  unfoldable pub blocking : {A : Type 0} → Db F A → Db F A
  blocking op db = elim db.faults [
    | [] ↦ op db
    | fault ∷ (rest → ih) ↦ elim fault [ none ↦ op (next db) | some e ↦ (err e, next db) ]
  ]

  -- No operation to come fails by the environment.
  abbrev pub Quiet : Database F → Type 0
  Quiet db = db.faults ≡ []

  -- A property that does not look at the faults survives an operation if it survives its statement.
  pub blocking-Keeps :
      (P : Database F → Type 0)
      → ((db : Database F) → P db → P (next db))
      → {A : Type 0} (op : Db F A) → Keeps P op
      → Keeps P (blocking op)
  unfolding blocking
  blocking-Keeps P skip op keeps db h = by_faults db.faults refl
    where
      by_faults : (fs : List (Option StorageError)) → db.faults ≡ fs → P (blocking op db).1
      by_faults [] e = rw (blocking, e) (keeps db h)
      by_faults (none ∷ rest) e = rw (blocking, e) (keeps (next db) (skip db h))
      by_faults (some f ∷ rest) e = rw (blocking, e) (skip db h)
