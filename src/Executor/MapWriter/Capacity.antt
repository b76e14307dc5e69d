-- ===== src/Executor/MapWriter/Capacity.antt =====
-- The capacity and memory limits that `write_directive` of crates/tlapix-executor/src/map_writer.rs
-- keeps.
use tlapix.Common.{
  ℕ, suc, ◌+◌, ◌*◌, ◌%◌, ◌^◌, ◌≤◌, ◌<◌, ◌≡◌, inl, inr, Bool, true, false, List, err, arith,
}
use tlapix.Common.Text.{Text}
use tlapix.Types.{Fingerprint, ActionDirective}
use tlapix.Ebpf.Maps.{BpfActionEntry}
use tlapix.Executor.MapWriter.{
  MapWriteError, MapNotification, BpfMapWriter, Settings, Service, entry_size, MapRef, action_alert,
  action_protect, action_isolate, at, notify, total_entry_count, total_memory_bytes,
  write_directive,
}
use tlapix.Executor.MapWriter.Retries.{
  FailedWrites, none_yet, one_more, after, write_directive_cases,
}

-- What a map promises about its size: a write adds one entry at most, a failed write none.
pub record CountLaws {M : Type 0} (writer : BpfMapWriter M) : Type 0 where
  pub adds_one :
      (fp : Fingerprint) (entry : BpfActionEntry) (m : M)
      → writer.entry_count (writer.write_entry fp entry m).1 ≤ suc (writer.entry_count m)
  pub failure_adds_none :
      (fp : Fingerprint) (entry : BpfActionEntry) (m : M) {e : MapWriteError}
      → (writer.write_entry fp entry m).0 ≡ err e
      → writer.entry_count (writer.write_entry fp entry m).1 ≤ writer.entry_count m

module _ {M : Type 0} (writer : BpfMapWriter M) (settings : Settings) where
  abbrev entries : Service M → ℕ
  entries s =
      writer.entry_count s.alert_map
      + writer.entry_count s.protect_map
      + writer.entry_count s.isolate_map

  -- No map has more entries than it may, and all of them fit in the memory cap.
  pub record WithinLimits (s : Service M) : Type 0 where
    pub alerts : writer.entry_count s.alert_map ≤ settings.max_entries_per_map
    pub protects : writer.entry_count s.protect_map ≤ settings.max_entries_per_map
    pub isolates : writer.entry_count s.isolate_map ≤ settings.max_entries_per_map
    pub memory : entries s * entry_size ≤ settings.max_total_memory_bytes

  -- The configured sizes are small enough that no sum of theirs wraps.
  abbrev pub NoWrap : Type 0
  NoWrap = (settings.max_entries_per_map * 3 + 1) * entry_size < 2 ^ 64

  module _ (laws : CountLaws writer) (d : ActionDirective) where
    failed-entry_count :
        {k : ℕ} {m m' : M} {last last' : Text}
        → FailedWrites writer d k m m' last last'
        → writer.entry_count m' ≤ writer.entry_count m
    failed-entry_count none_yet = omega arith
    failed-entry_count (one_more e failed run) =
        omega (arith, laws.failure_adds_none _ _ _ failed, failed-entry_count run)

    fits_unwrapped :
        (s : Service M)
        → WithinLimits s
        → NoWrap
        → (total_memory_bytes writer settings s + entry_size) % 2 ^ 64
          ≤ settings.max_total_memory_bytes
        → (entries s + 1) * entry_size ≤ settings.max_total_memory_bytes
    unfolding total_memory_bytes total_entry_count
    fits_unwrapped s w small fits = omega (arith, w.alerts, w.protects, w.isolates)

    -- A map that has room for one entry more, within the memory, may be replaced by one that is one
    -- entry larger.
    grown :
        (ref : MapRef) (m : M) (ms : List ℕ) (s : Service M)
        → WithinLimits s
        → NoWrap
        → writer.entry_count (at ref s) < settings.max_entries_per_map
        → (total_memory_bytes writer settings s + entry_size) % 2 ^ 64
          ≤ settings.max_total_memory_bytes
        → writer.entry_count m ≤ suc (writer.entry_count (at ref s))
        → WithinLimits (after ref m ms s)
    grown action_alert m ms s w small room fits le = record {
      alerts = omega arith;
      protects = w.protects;
      isolates = w.isolates;
      memory = omega (arith, fits_unwrapped s w small fits);
    }
    grown action_protect m ms s w small room fits le = record {
      alerts = w.alerts;
      protects = omega arith;
      isolates = w.isolates;
      memory = omega (arith, fits_unwrapped s w small fits);
    }
    grown action_isolate m ms s w small room fits le = record {
      alerts = w.alerts;
      protects = w.protects;
      isolates = omega arith;
      memory = omega (arith, fits_unwrapped s w small fits);
    }

    notify-WithinLimits :
        (b : Bool) (n : MapNotification) (s : Service M)
        → WithinLimits s
        → WithinLimits (notify b n s)
    notify-WithinLimits true n s w = record {
      alerts = w.alerts;
      protects = w.protects;
      isolates = w.isolates;
      memory = w.memory;
    }
    notify-WithinLimits false n s w = w

    -- Writing any directive keeps every map within its number of entries and all maps within the memory
    -- cap, for maps that keep their promise about sizes and limits whose sums do not wrap.
    pub write_directive-WithinLimits :
        (s : Service M)
        → NoWrap
        → WithinLimits s
        → WithinLimits (write_directive writer settings d s).1
    write_directive-WithinLimits s small w = elim (write_directive_cases writer settings d s) [
      | inl (_, e) ↦ rw e (notify-WithinLimits _ _ s w)
      | inr (inl (_, e)) ↦ rw e (notify-WithinLimits _ _ s w)
      | inr (inr (inl ((room, fits), (k, m, last, _, run, _, e)))) ↦ rw e (
          grown _ _ _ s w small room fits
            (omega (arith, laws.adds_one _ _ m, failed-entry_count run)))
      | inr (inr (inr ((room, fits), (m, last, run, e)))) ↦ rw e (
          notify-WithinLimits _ _ _
            (grown _ _ _ s w small room fits (omega (arith, failed-entry_count run))))
    ]
