-- ===== src/Executor/Failures/Handled.antt =====
-- A failure that crates/tlapix-executor/src/failure_handler.rs handles is in the storage with its alert.
use tlapix.Common.{
  ◌⊎◌, ◌≢◌, ℕ, ◌≡◌, refl, sym, ◌∙◌, subst, true, false, Option, none, some, List, [], ◌∷◌, ◌++◌,
  if◌then◌else◌, bytes_eq, bytes_eq_iff, Bool-cases, inl, inr, ok, ◌>>◌, pure, map_err, Yields,
  bind_step, map_err_step, arith,
}
use tlapix.Common.Int.{ℤ, pos}
use tlapix.Common.Text.{Text, text}
use tlapix.Types.{ActionDirective, failed}
use tlapix.Storage.Rows.{ActionDirectiveRow}
use tlapix.Storage.Sql.{update_where, exists, is_key, find}
use tlapix.Storage.Sql.Laws.{apply_to, find-append, find-update, exists-update, not_exists_find}
use tlapix.Storage.Database.{Database, blocking, Quiet}
use tlapix.Storage.Certificates.{cert_key}
use tlapix.Storage.Directives.{
  directive_key, as_failed, insert_action_directive, mark_directive_failed,
}
use tlapix.Executor.Failures.{
  FailureHandlingResult, storage, alert_row, record_failure, handle_execution_failure,
}

known_or_none :
    (id : Text) (table : List ActionDirectiveRow)
    → (if exists (is_key directive_key id) table then find directive_key id table else none)
      ≡ find directive_key id table
known_or_none id table = ground (arith, not_exists_find directive_key id table)

module _ (uuid_text : ℕ → Text) (alert_id : ℕ) (failed_ms created_ms : ℤ) where
  -- The table of directives after a failure was handled.
  abbrev handled : ActionDirective → Text → ℕ → List ActionDirectiveRow → List ActionDirectiveRow
  handled d reason attempts table =
      update_where (is_key directive_key (uuid_text d.id))
        (as_failed (pos attempts) reason failed_ms) table
      ++ alert_row uuid_text alert_id failed_ms created_ms d reason attempts ∷ []

  -- The same by the operations of the code.
  found_after :
      ActionDirective → Text → ℕ → Text → Option ActionDirectiveRow → Option ActionDirectiveRow
  found_after d reason attempts id before =
      if bytes_eq (uuid_text alert_id) id
      then some (alert_row uuid_text alert_id failed_ms created_ms d reason attempts)
      else if bytes_eq (uuid_text d.id) id
      then apply_to (as_failed (pos attempts) reason failed_ms) before
      else before

  handled-find :
      (d : ActionDirective) (reason : Text) (attempts : ℕ) (table : List ActionDirectiveRow)
      (id : Text)
      → exists (is_key directive_key (uuid_text alert_id)) table ≡ false
      → find directive_key id (handled d reason attempts table)
        ≡ found_after d reason attempts id (find directive_key id table)
  unfolding alert_row found_after
  handled-find d reason attempts table id new =
      let at_failed = is_key directive_key (uuid_text d.id) in
      let changed_row = as_failed (pos attempts) reason failed_ms in
      let changed = update_where at_failed changed_row table in
      find-append directive_key id changed
        (alert_row uuid_text alert_id failed_ms created_ms d reason attempts)
      ∙ elim (Bool-cases (bytes_eq (uuid_text alert_id) id)) [
        | inl same ↦
            let unknown =
              exists-update directive_key id at_failed changed_row table (λ r. refl)
              ∙ subst (λ i. exists (is_key directive_key i) table ≡ false)
                  ((bytes_eq_iff (uuid_text alert_id) id).0 same) new in
            rw (unknown, same) refl
        | inr differs ↦ rw differs (
            known_or_none id changed
            ∙ find-update directive_key (uuid_text d.id) id changed_row table (λ r. refl))
      ]

  -- The critical alert for the certificate of a directive, still to be carried out.
  abbrev pub IsAlertFor : ActionDirective → ActionDirectiveRow → Type 0
  IsAlertFor d row =
      (row.id ≡ uuid_text alert_id)
      × (row.cert_fingerprint ≡ d.cert_fingerprint)
      × (row.correlation_id ≡ uuid_text d.correlation_id)
      × (row.action_type ≡ text "alert")
      × (row.severity ≡ text "critical")
      × (row.status ≡ text "pending")

  -- A directive before and after it failed.
  abbrev pub HasFailed : Text → ℕ → Option ActionDirectiveRow → Option ActionDirectiveRow → Type 0
  HasFailed reason attempts none after = after ≡ none
  HasFailed reason attempts (some old) after =
      after
      ≡ some (record old {
        status = text "failed";
        attempt_count = pos attempts;
        failure_reason = some reason;
        executed_at = some failed_ms;
      })

  -- What a lookup finds after a failure was handled, by what it found before: the alert under its own
  -- identifier, the failed directive under its, and under any other what was there.
  abbrev pub FoundAfter :
      ActionDirective
      → Text
      → ℕ
      → Text
      → Option ActionDirectiveRow
      → Option ActionDirectiveRow
      → Type 0
  FoundAfter d reason attempts id before after =
      ((id ≡ uuid_text alert_id)
        × ((row : ActionDirectiveRow) × (after ≡ some row) × IsAlertFor d row))
      ⊎ ((id ≢ uuid_text alert_id) × (id ≡ uuid_text d.id) × HasFailed reason attempts before after)
      ⊎ ((id ≢ uuid_text alert_id) × (id ≢ uuid_text d.id) × (after ≡ before))

  applied-HasFailed :
      (reason : Text) (attempts : ℕ) (before : Option ActionDirectiveRow)
      → HasFailed reason attempts before
          (apply_to (as_failed (pos attempts) reason failed_ms) before)
  applied-HasFailed reason attempts none = refl
  applied-HasFailed reason attempts (some old) = refl

  differs : (a b : Text) → bytes_eq a b ≡ false → b ≢ a
  differs a b h same = ground (arith, bytes_eq_iff a b)

  found_after-FoundAfter :
      (d : ActionDirective) (reason : Text) (attempts : ℕ) (id : Text)
      (before : Option ActionDirectiveRow)
      → FoundAfter d reason attempts id before (found_after d reason attempts id before)
  unfolding found_after alert_row
  found_after-FoundAfter d reason attempts id before =
      elim (Bool-cases (bytes_eq (uuid_text alert_id) id)) [
        | inl is_alert ↦ inl (
          sym ((bytes_eq_iff (uuid_text alert_id) id).0 is_alert),
          (
            alert_row uuid_text alert_id failed_ms created_ms d reason attempts,
            rw is_alert refl,
            (refl, refl, refl, refl, refl, refl),
          ),
        )
        | inr other ↦ elim (Bool-cases (bytes_eq (uuid_text d.id) id)) [
          | inl is_it ↦ inr (
              inl (
                differs (uuid_text alert_id) id other,
                sym ((bytes_eq_iff (uuid_text d.id) id).0 is_it),
                rw (other, is_it) (applied-HasFailed reason attempts before),
              ))
          | inr else_ ↦ inr (
              inr (
                differs (uuid_text alert_id) id other,
                differs (uuid_text d.id) id else_,
                rw (other, else_) refl,
              ))
        ]
      ]

  module _ {F : Type 0} where
    -- The database while the alert is not yet inserted.
    failed_db : ActionDirective → Text → ℕ → Database F → Database F
    failed_db d reason attempts db = record db {
      action_directives =
          update_where (is_key directive_key (uuid_text d.id))
            (as_failed (pos attempts) reason failed_ms) db.action_directives;
    }

    marked :
        (d : ActionDirective) (reason : Text) (attempts : ℕ) (db : Database F)
        → Quiet db
        → mark_directive_failed failed_ms (uuid_text d.id) (pos attempts) reason db
          ≡ (ok tt, failed_db d reason attempts db)
    unfolding mark_directive_failed failed_db blocking
    marked d reason attempts db quiet = rw quiet refl

    inserted :
        (row : ActionDirectiveRow) (db : Database F)
        → Quiet db
        → exists (is_key directive_key row.id) db.action_directives ≡ false
        → exists (is_key cert_key row.cert_fingerprint) db.certificates ≡ true
        → insert_action_directive row db
          ≡ (ok tt, record db { action_directives = db.action_directives ++ row ∷ [] })
    unfolding insert_action_directive blocking
    inserted row db quiet fresh certified = rw (quiet, fresh, certified) refl

    -- Where no operation fails, the identifier of the alert is fresh and the certificate is stored, a failed
    -- outcome is handled with success, and afterwards the storage has the critical alert for the certificate,
    -- the directive as failed with its attempts and its reason, and every other directive as it was.
    pub handle_execution_failure-found :
        (d : ActionDirective) (reason : Text) (attempts : ℕ) (db : Database F) (id : Text)
        → Quiet db
        → exists (is_key directive_key (uuid_text alert_id)) db.action_directives ≡ false
        → exists (is_key cert_key d.cert_fingerprint) db.certificates ≡ true
        → Yields
            (λ (result : FailureHandlingResult) (db' : Database F).
              FoundAfter d reason attempts id
                (find directive_key id db.action_directives)
                (find directive_key id db'.action_directives))
            (handle_execution_failure uuid_text alert_id failed_ms created_ms d
              (failed reason attempts)
              db)
    unfolding handle_execution_failure record_failure alert_row failed_db
    handle_execution_failure-found d reason attempts db id quiet fresh certified =
        let row = alert_row uuid_text alert_id failed_ms created_ms d reason attempts in
        let unknown =
          exists-update directive_key (uuid_text alert_id) (is_key directive_key (uuid_text d.id))
            (as_failed (pos attempts) reason failed_ms) db.action_directives (λ r. refl)
          ∙ fresh in
        let result : FailureHandlingResult = record {
          failed_directive_id = uuid_text d.id;
          alert_directive_id = uuid_text alert_id;
          attempts = attempts;
          reason = reason;
        } in
        let mark = mark_directive_failed failed_ms (uuid_text d.id) (pos attempts) reason in
        let insert = map_err storage (insert_action_directive row) in
        let steps =
          bind_step (map_err storage mark) (λ _. insert >> pure result) {s = db}
            (map_err_step storage mark {s = db} (marked d reason attempts db quiet))
          ∙ bind_step insert (λ _. pure result) {s = failed_db d reason attempts db}
              (map_err_step storage (insert_action_directive row)
                {s = failed_db d reason attempts db}
                (inserted row (failed_db d reason attempts db) quiet unknown certified)) in
        subst
          (Yields (λ result db'.
            FoundAfter d reason attempts id (find directive_key id db.action_directives)
              (find directive_key id db'.action_directives)))
          (sym steps)
          (
            result,
            refl,
            subst (FoundAfter d reason attempts id (find directive_key id db.action_directives))
                (sym (handled-find d reason attempts db.action_directives id fresh))
                (found_after-FoundAfter d reason attempts id
                  (find directive_key id db.action_directives)),
          )
