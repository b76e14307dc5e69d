-- ===== src/Storage/Directives.antt =====
-- The table `action_directives` of crates/tlapix-common/src/storage.rs.
use tlapix.Common.{
  ℕ, Bool, not, ◌&&◌, Option, some, List, [], ◌∷◌, ◌++◌, if◌then◌else◌, bytes_eq, length, ok, err,
}
use tlapix.Common.Int.{ℤ}
use tlapix.Common.Text.{Text, text}
use tlapix.Types.{Fingerprint}
use tlapix.Storage.Rows.{ActionDirectiveRow}
use tlapix.Storage.Sql.{select_where, delete_where, update_where, exists, is_key, find}
use tlapix.Storage.Database.{foreign_key, unique, sqlite, Db, blocking}
use tlapix.Storage.Certificates.{cert_key}

abbrev pub directive_key : ActionDirectiveRow → Text
directive_key d = d.id

-- status = s
abbrev pub has_status : Text → ActionDirectiveRow → Bool
has_status s d = bytes_eq d.status s

abbrev pub with_status : Text → ℤ → Option Text → ActionDirectiveRow → ActionDirectiveRow
with_status status now_ms failure_reason d = record d {
  status = status;
  executed_at = some now_ms;
  failure_reason = failure_reason;
}

abbrev pub as_failed : ℤ → Text → ℤ → ActionDirectiveRow → ActionDirectiveRow
as_failed attempt_count failure_reason now_ms d = record d {
  status = text "failed";
  attempt_count = attempt_count;
  failure_reason = some failure_reason;
  executed_at = some now_ms;
}

module _ {F : Type 0} where
  -- The identifier is new and the certificate is in its table.
  unfoldable pub insert_action_directive : ActionDirectiveRow → Db F (Unit {0})
  unfolding blocking exists
  insert_action_directive row = blocking λ db.
      if exists (is_key directive_key row.id) db.action_directives
      then (err (sqlite unique), db)
      else if not (exists (is_key cert_key row.cert_fingerprint) db.certificates)
      then (err (sqlite foreign_key), db)
      else (ok tt, record db { action_directives = db.action_directives ++ row ∷ [] })

  unfoldable pub get_action_directive : Text → Db F (Option ActionDirectiveRow)
  unfolding blocking find
  get_action_directive id = blocking λ db. (ok (find directive_key id db.action_directives), db)

  unfoldable pub update_directive_status : ℤ → Text → Text → Option Text → Db F (Unit {0})
  unfolding blocking update_where
  update_directive_status now_ms id status failure_reason = blocking λ db. (
    ok tt,
    record db {
      action_directives =
          update_where (is_key directive_key id) (with_status status now_ms failure_reason)
            db.action_directives;
    },
  )

  unfoldable pub list_directives_by_status : Text → Db F (List ActionDirectiveRow)
  unfolding blocking select_where
  list_directives_by_status status =
      blocking λ db. (ok (select_where (has_status status) db.action_directives), db)

  unfoldable pub list_pending_directives_by_fingerprint :
      Fingerprint → Db F (List ActionDirectiveRow)
  unfolding blocking select_where
  list_pending_directives_by_fingerprint fp = blocking λ db. (
    ok (
        select_where (λ d. bytes_eq d.cert_fingerprint fp && has_status (text "pending") d)
          db.action_directives),
    db,
  )

  unfoldable pub mark_directive_failed : ℤ → Text → ℤ → Text → Db F (Unit {0})
  unfolding blocking update_where
  mark_directive_failed now_ms id attempt_count failure_reason = blocking λ db. (
    ok tt,
    record db {
      action_directives =
          update_where (is_key directive_key id) (as_failed attempt_count failure_reason now_ms)
            db.action_directives;
    },
  )

  unfoldable pub delete_action_directive : Text → Db F (Unit {0})
  unfolding blocking delete_where
  delete_action_directive id = blocking λ db. (
    ok tt,
    record db { action_directives = delete_where (is_key directive_key id) db.action_directives },
  )

  unfoldable pub count_pending_directives : Db F ℕ
  unfolding blocking select_where
  count_pending_directives =
      blocking
        λ db. (ok (length (select_where (has_status (text "pending")) db.action_directives)), db)
