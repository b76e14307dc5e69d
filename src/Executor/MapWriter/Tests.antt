-- ===== src/Executor/MapWriter/Tests.antt =====
-- Runs of the map writer over maps in memory, and the theorems at them.
use tlapix.Common.{
  ◌⊎◌, ap, ◌*◌, ◌≡◌, ◌≢◌, ◌↔◌, inl, inr, refl, true, Option, none, some, [], ◌∷◌, length, bytes_eq,
  replicate, ok, arith,
}
use tlapix.Common.Int.{pos}
use tlapix.Common.Text.{Text, text}
use tlapix.Types.{
  Fingerprint, Severity, ActionDirective, ActionType, protect, isolate, to_bpf_value,
  ExecutionOutcome,
}
use tlapix.Ebpf.Packet.{tc_act_shot}
use tlapix.Ebpf.Maps.{BpfMap, BpfActionEntry}
use tlapix.Ebpf.Executor.Programs.{tlapix_protect, tlapix_isolate}
use tlapix.Ebpf.Tests.{packet, fingerprint, extracted}
use tlapix.Executor.MapWriter.{
  error_text, Settings, Service, created_ns, action_code, pinned, directive_to_entry, select_map,
  map_name, total_entry_count, total_memory_bytes, delay_ms, write_loop, write_directive,
}
use tlapix.Executor.MapWriter.Capacity.{WithinLimits, write_directive-WithinLimits}
use tlapix.Executor.MapWriter.Mock.{
  lookup, contains_key, insert, MockMap, mock_write, mock_writer, mock_write_cases, mock-CountLaws,
}
use tlapix.Executor.MapWriter.Enforced.{isolate-enforced, protect-enforced}

programs : Unit {0}
unfolding to_bpf_value error_text created_ns action_code pinned directive_to_entry select_map
    map_name total_entry_count total_memory_bytes delay_ms write_loop write_directive lookup
    contains_key insert mock_write bytes_eq
programs = tt

abbrev mock : Option Text → MockMap
mock fail = record { entries = []; max_entries = 2; fail_writes = fail }

abbrev settings : Settings
settings = record {
  max_entries_per_map = 2;
  max_total_memory_bytes = 1024 * 1024;
  max_retries = 3;
  retry_base_ms = 100;
  has_notifier = true;
}

abbrev service : Option Text → Service MockMap
service fail = record {
  alert_map = mock none;
  protect_map = mock fail;
  isolate_map = mock fail;
  notifications = [];
  sleeps = [];
}

abbrev directive : ActionType → ActionDirective
directive action = record {
  id = 1;
  correlation_id = 2;
  cert_fingerprint = fingerprint;
  action_type = action;
  severity = Severity.high;
  reasoning = text "test";
  created_at = pos 5;
  source_anomaly = none;
  attempt_count = 0;
}

abbrev isolation : ActionDirective
isolation = directive (isolate fingerprint)

abbrev other : Fingerprint
other = replicate 32 9

abbrev protection : ActionDirective
protection = directive (protect other (text "example.com"))

written_once :
    (write_directive mock_writer settings isolation (service none)).0 ≡ ExecutionOutcome.success
unfolding programs
written_once = refl

-- Three attempts with delays of 100 and 200 ms.
gives_up :
    ((write_directive mock_writer settings isolation (service (some (text "down")))).0
      ≡ ExecutionOutcome.failed (text "write failed: down") 3)
    × ((write_directive mock_writer settings isolation (service (some (text "down")))).1.sleeps
        ≡ 100 ∷ 200 ∷ [])
unfolding programs
gives_up = (refl, refl)

empty-WithinLimits : WithinLimits mock_writer settings (service none)
empty-WithinLimits = record {
  alerts = omega arith;
  protects = omega arith;
  isolates = omega arith;
  memory = omega arith;
}

write_directive-WithinLimits_example :
    WithinLimits mock_writer settings
      (write_directive mock_writer settings isolation (service none)).1
write_directive-WithinLimits_example =
    write_directive-WithinLimits mock_writer settings mock-CountLaws isolation (service none)
      (omega arith) empty-WithinLimits

abbrev entry : BpfActionEntry
entry = directive_to_entry isolation

-- The kernel reads the maps in memory.
abbrev actions : BpfMap BpfActionEntry
actions = record {
  Carrier = MockMap;
  get = λ m fp. lookup fp m.entries;
  insert = λ m fp e. (mock_write fp e m).1;
  write = λ m fp e. (mock_write fp e m).1;
}

stores :
    (fp : Fingerprint) (e : BpfActionEntry) (m : MockMap)
    → (mock_write fp e m).0 ≡ ok tt
    → lookup fp (mock_write fp e m).1.entries ≡ some e
stores fp e m h = elim (mock_write_cases fp e m) [
  | inl (_, found, _, _) ↦ found
  | inr (error, failed) ↦ absurd (ground arith)
]

mock_keeps :
    (fp : Fingerprint) (e : BpfActionEntry) (m : MockMap) (o : Fingerprint)
    → o ≢ fp
    → lookup o (mock_write fp e m).1.entries ≡ lookup o m.entries
mock_keeps fp e m o differs = elim (mock_write_cases fp e m) [
  | inl (_, _, others, _) ↦ others o differs
  | inr (error, failed) ↦ ap (λ r. lookup o r.1.entries) failed
]

isolate-enforced_example :
    ((fingerprint ≡ fingerprint)
      × (tlapix_isolate actions packet
            (write_directive mock_writer settings isolation (service none)).1.isolate_map
          ≡ tc_act_shot))
    ⊎ ((fingerprint ≢ fingerprint)
        × (tlapix_isolate actions packet
              (write_directive mock_writer settings isolation (service none)).1.isolate_map
            ≡ tlapix_isolate actions packet (service none).isolate_map))
unfolding programs
isolate-enforced_example =
    isolate-enforced actions mock_writer stores mock_keeps settings isolation (service none)
      {target = fingerprint} {fp = fingerprint} packet refl refl extracted

abbrev protected : MockMap
protected = (write_directive mock_writer settings protection (service none)).1.protect_map

protected_sized :
    (fp : Fingerprint) (e : BpfActionEntry)
    → lookup fp protected.entries ≡ some e
    → length e.pinned_fp ≡ 32
unfolding programs
protected_sized fp e h = ground arith

protect-enforced_example :
    ((fingerprint ≡ fingerprint)
      × ((tlapix_protect actions packet protected ≡ tc_act_shot) ↔ (fingerprint ≢ other)))
    ⊎ ((fingerprint ≢ fingerprint)
        × (tlapix_protect actions packet protected
            ≡ tlapix_protect actions packet (service none).protect_map))
unfolding programs
protect-enforced_example =
    protect-enforced actions mock_writer stores mock_keeps settings protection (service none)
      {pin = other} {fp = fingerprint} {domain = text "example.com"} packet refl refl extracted
      protected_sized
