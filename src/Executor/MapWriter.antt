-- ===== src/Executor/MapWriter.antt =====
-- crates/tlapix-executor/src/map_writer.rs: directives go to the action maps of the kernel. A map is
-- behind a trait, so its operations are parameters over the map's state. Sums of machine integers
-- wrap, as in a release build; locks and logs are left out.
pub mod Retries
pub mod Capacity
pub mod Mock
pub mod Enforced
pub mod Tests
use tlapix.Common.{
  ℕ, zero, suc, ◌+◌, ◌-◌, ◌*◌, ◌%◌, ◌^◌, Bool, true, false, List, [], ◌∷◌, ◌++◌, ltb, leb,
  if◌then◌else◌, replicate, Result, ok, err,
}
use tlapix.Common.Int.{ℤ, pos, negsuc}
use tlapix.Common.Text.{Text, text}
use tlapix.Common.Time.{DateTime}
use tlapix.Common.Decimal.{show}
use tlapix.Types.{
  Fingerprint, ActionDirective, ActionType, alert, renew, protect, isolate, to_bpf_value,
  ExecutionOutcome,
}
use tlapix.Ebpf.Maps.{BpfActionEntry, flag_active}

pub data MapWriteError : Type 0 where
  map_full : ℕ → ℕ → MapWriteError
  memory_cap_exceeded : ℕ → ℕ → MapWriteError
  write_failed : Text → MapWriteError
  permanent_failure : Text → ℕ → MapWriteError

-- `to_string`
unfoldable pub error_text : MapWriteError → Text
error_text (map_full current max) =
    text "map is full (" ++ (show current ++ (text "/" ++ (show max ++ text " entries)")))
error_text (memory_cap_exceeded current_bytes max_bytes) =
    text "total memory cap exceeded ("
    ++ (show current_bytes ++ (text "/" ++ (show max_bytes ++ text " bytes)")))
error_text (write_failed reason) = text "write failed: " ++ reason
error_text (permanent_failure reason attempts) =
    text "permanent failure after " ++ (show attempts ++ (text " attempts: " ++ reason))

pub data MapNotification : Type 0 where
  full : Text → ℕ → MapNotification
  permanent : ActionDirective → Text → ℕ → MapNotification

-- The trait, over the state `M` of a map.
pub record BpfMapWriter (M : Type 0) : Type 0 where
  pub write_entry : Fingerprint → BpfActionEntry → M → Result MapWriteError (Unit {0}) × M
  pub remove_entry : Fingerprint → M → Result MapWriteError (Unit {0}) × M
  pub entry_count : M → ℕ
  pub is_full : M → Bool

pub record Settings : Type 0 where
  pub max_entries_per_map : ℕ
  pub max_total_memory_bytes : ℕ
  pub max_retries : ℕ
  pub retry_base_ms : ℕ
  pub has_notifier : Bool

-- The three maps, what the notifier was told and the delays slept, both in order.
pub record Service (M : Type 0) : Type 0 where
  pub alert_map : M
  pub protect_map : M
  pub isolate_map : M
  pub notifications : List MapNotification
  pub sleeps : List ℕ

-- `size_of::<BpfActionEntry>()` under `repr(C)`: 32, 1 and 1 bytes, padded to 40; 8, 32 and 1, padded
-- to 88.
abbrev pub entry_size : ℕ
entry_size = 88

-- `timestamp_nanos_opt().unwrap_or(0) as u64`
unfoldable pub created_ns : DateTime → ℕ
created_ns (pos n) = if ltb n (2 ^ 63) then n else 0
created_ns (negsuc n) = if ltb n (2 ^ 63) then 2 ^ 64 - 1 - n else 0

unfoldable pub action_code : ActionType → ℕ
action_code alert = 0
action_code renew = 1
action_code (protect fp domain) = 2
action_code (isolate fp) = 3

unfoldable pub pinned : ActionType → Fingerprint
pinned (protect fp domain) = fp
pinned action = replicate 32 0

unfoldable pub directive_to_entry : ActionDirective → BpfActionEntry
unfolding action_code pinned to_bpf_value created_ns
directive_to_entry directive = record {
  fingerprint = directive.cert_fingerprint;
  action = action_code directive.action_type;
  severity = to_bpf_value directive.severity;
  created_ts = created_ns directive.created_at;
  pinned_fp = pinned directive.action_type;
  flags = flag_active;
}

pub data MapRef : Type 0 where
  action_alert action_protect action_isolate : MapRef

unfoldable pub select_map : ActionType → MapRef
select_map alert = action_alert
select_map renew = action_alert
select_map (protect fp domain) = action_protect
select_map (isolate fp) = action_isolate

unfoldable pub map_name : ActionType → Text
map_name alert = text "action_alert"
map_name renew = text "action_alert"
map_name (protect fp domain) = text "action_protect"
map_name (isolate fp) = text "action_isolate"

module _ {M : Type 0} where
  abbrev pub at : MapRef → Service M → M
  at action_alert s = s.alert_map
  at action_protect s = s.protect_map
  at action_isolate s = s.isolate_map

  abbrev pub put : MapRef → M → Service M → Service M
  put action_alert m s = record s { alert_map = m }
  put action_protect m s = record s { protect_map = m }
  put action_isolate m s = record s { isolate_map = m }

  abbrev pub notify : Bool → MapNotification → Service M → Service M
  notify true n s = record s { notifications = s.notifications ++ n ∷ [] }
  notify false n s = s

  abbrev pub sleep : ℕ → Service M → Service M
  sleep ms s = record s { sleeps = s.sleeps ++ ms ∷ [] }

module _ {M : Type 0} (writer : BpfMapWriter M) (settings : Settings) where
  unfoldable pub total_entry_count : Service M → ℕ
  total_entry_count s =
      (writer.entry_count s.alert_map
        + writer.entry_count s.protect_map
        + writer.entry_count s.isolate_map)
      % 2 ^ 64

  unfoldable pub total_memory_bytes : Service M → ℕ
  unfolding total_entry_count
  total_memory_bytes s = total_entry_count s * entry_size % 2 ^ 64

  unfoldable pub delay_ms : ℕ → ℕ
  delay_ms attempt = settings.retry_base_ms * (2 ^ attempt % 2 ^ 64) % 2 ^ 64

  abbrev pub after_failure : ℕ → Service M → Service M
  after_failure attempt s =
      if ltb attempt (settings.max_retries - 1) then sleep (delay_ms attempt) s else s

  -- The loop from `attempt` on, `left` rounds of which are left; an error carries the last one's text.
  unfoldable pub write_loop :
      MapRef → ActionDirective → ℕ → ℕ → Text → Service M → Result Text (Unit {0}) × Service M
  unfolding delay_ms error_text directive_to_entry
  write_loop ref d zero attempt last_error s = (err last_error, s)
  write_loop ref d (suc left) attempt last_error s =
      let (r, m) = writer.write_entry d.cert_fingerprint (directive_to_entry d) (at ref s) in
      elim r [
        | ok u ↦ (ok tt, put ref m s)
        | err e ↦
            write_loop ref d left (attempt + 1) (error_text e) (after_failure attempt (put ref m s))
      ]

  abbrev pub finish :
      ActionDirective → Result Text (Unit {0}) × Service M → ExecutionOutcome × Service M
  finish d (ok u, s) = (ExecutionOutcome.success, s)
  finish d (err reason, s) = (
    ExecutionOutcome.failed reason settings.max_retries,
    notify settings.has_notifier (permanent d reason settings.max_retries) s,
  )

  unfoldable pub write_directive : ActionDirective → Service M → ExecutionOutcome × Service M
  unfolding select_map map_name total_memory_bytes total_entry_count write_loop
  write_directive d s =
      let ref = select_map d.action_type in
      let name = map_name d.action_type in
      if leb settings.max_entries_per_map (writer.entry_count (at ref s))
      then (
        ExecutionOutcome.map_full,
        notify settings.has_notifier (full name (writer.entry_count (at ref s))) s,
      )
      else if ltb settings.max_total_memory_bytes ((total_memory_bytes s + entry_size) % 2 ^ 64)
      then (
        ExecutionOutcome.map_full,
        notify settings.has_notifier (full name (total_entry_count s)) s,
      )
      else finish d (write_loop ref d settings.max_retries 0 [] s)
