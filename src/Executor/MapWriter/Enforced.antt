-- ===== src/Executor/MapWriter/Enforced.antt =====
-- From a directive to the kernel: what crates/tlapix-executor/src/map_writer.rs writes is what the
-- programs of crates/tlapix-ebpf/src/executor.rs enforce.
use Prim.Native.Nat.{bit_and}
use tlapix.Common.{
  ◌⊎◌, ap, sym, Bool-cases, bytes_eq, bytes_eq_iff, ℕ, ◌≡◌, ◌≢◌, ◌↔◌, inl, inr, refl, ◌∙◌, subst,
  false, some, List, length, ok, ◌==◌, arith,
}
use tlapix.Common.Text.{Text}
use tlapix.Types.{Fingerprint, ActionDirective, protect, isolate, ExecutionOutcome}
use tlapix.Ebpf.Packet.{TcContext, tc_act_shot}
use tlapix.Ebpf.Maps.{BpfMap, BpfActionEntry, flag_active}
use tlapix.Ebpf.Executor.Headers.{extract_cert_fingerprint}
use tlapix.Ebpf.Executor.Programs.{tlapix_protect, tlapix_isolate}
use tlapix.Ebpf.Executor.Verdicts.{
  isolate_verdict, isolate_iff, isolate_of_extract, protect_iff, protect_of_get,
}
use tlapix.Executor.MapWriter.{
  BpfMapWriter, Settings, Service, MapRef, action_alert, action_protect, action_isolate, at,
  select_map, directive_to_entry, pinned, write_directive,
}
use tlapix.Executor.MapWriter.Retries.{
  write, FailedWrites, after, WriteOutcome, write_directive_cases,
}

active : (d : ActionDirective) → (bit_and (directive_to_entry d).flags flag_active == 0) ≡ false
unfolding directive_to_entry
active d = refl

pinned_by :
    (d : ActionDirective) {pin : Fingerprint} {domain : Text}
    → d.action_type ≡ protect pin domain
    → (directive_to_entry d).pinned_fp ≡ pin
unfolding directive_to_entry pinned
pinned_by d e = rw e

-- The maps that the service writes are those that the kernel reads: a write that succeeds is seen under
-- its key, and no write is seen under another.
module _ (actions : BpfMap BpfActionEntry) (writer : BpfMapWriter actions.Carrier)
    (stores : (fp : Fingerprint) (entry : BpfActionEntry) (m : actions.Carrier)
      → (writer.write_entry fp entry m).0 ≡ ok tt
      → actions.get (writer.write_entry fp entry m).1 fp ≡ some entry)
    (keeps : (fp : Fingerprint) (entry : BpfActionEntry) (m : actions.Carrier) (other : Fingerprint)
      → other ≢ fp
      → actions.get (writer.write_entry fp entry m).1 other ≡ actions.get m other)
    (settings : Settings) (d : ActionDirective) (s : Service actions.Carrier) where
  at-after : (ref : MapRef) (m : actions.Carrier) (ms : List ℕ) → at ref (after ref m ms s) ≡ m
  at-after action_alert m ms = refl
  at-after action_protect m ms = refl
  at-after action_isolate m ms = refl

  -- A directive that succeeds is an entry of its map.
  stored :
      {r : ExecutionOutcome × Service actions.Carrier}
      → WriteOutcome writer settings d s r
      → r.0 ≡ ExecutionOutcome.success
      → actions.get (at (select_map d.action_type) r.1) d.cert_fingerprint
        ≡ some (directive_to_entry d)
  stored (inl (_, e)) h = absurd (ground arith)
  stored (inr (inl (_, e))) h = absurd (ground arith)
  stored (inr (inr (inl (_, (k, m, last, _, _, taken, e))))) h =
      rw (e, at-after (select_map d.action_type) (write writer d m).1) (stores _ _ m taken)
  stored (inr (inr (inr (_, (m, last, _, e))))) h = absurd (ground arith)

  -- Writes that fail leave the other keys too.
  failed-keeps :
      {k : ℕ} {m m' : actions.Carrier} {last last' : Text} (other : Fingerprint)
      → FailedWrites writer d k m m' last last'
      → other ≢ d.cert_fingerprint
      → actions.get m' other ≡ actions.get m other
  failed-keeps other FailedWrites.none_yet differs = refl
  failed-keeps {m = m} other (FailedWrites.one_more e failed more) differs =
      failed-keeps other more differs
      ∙ keeps d.cert_fingerprint (directive_to_entry d) m other differs

  -- A directive that succeeds leaves the other keys of its map.
  untouched :
      {r : ExecutionOutcome × Service actions.Carrier} (other : Fingerprint)
      → WriteOutcome writer settings d s r
      → r.0 ≡ ExecutionOutcome.success
      → other ≢ d.cert_fingerprint
      → actions.get (at (select_map d.action_type) r.1) other
        ≡ actions.get (at (select_map d.action_type) s) other
  untouched other (inl (_, e)) h differs = absurd (ground arith)
  untouched other (inr (inl (_, e))) h differs = absurd (ground arith)
  untouched other (inr (inr (inl (_, (k, m, last, _, failed, taken, e))))) h differs =
      rw (e, at-after (select_map d.action_type) (write writer d m).1)
        (keeps d.cert_fingerprint (directive_to_entry d) m other differs
          ∙ failed-keeps other failed differs)
  untouched other (inr (inr (inr (_, (m, last, _, e))))) h differs = absurd (ground arith)

  in_isolate_map :
      {target : Fingerprint} (r : ExecutionOutcome × Service actions.Carrier)
      → d.action_type ≡ isolate target
      → actions.get (at (select_map d.action_type) r.1) d.cert_fingerprint
        ≡ some (directive_to_entry d)
      → actions.get r.1.isolate_map d.cert_fingerprint ≡ some (directive_to_entry d)
  unfolding select_map
  in_isolate_map r e h =
      subst
        (λ a. actions.get (at (select_map a) r.1) d.cert_fingerprint ≡ some (directive_to_entry d))
        e h

  in_protect_map :
      {pin : Fingerprint} {domain : Text} (r : ExecutionOutcome × Service actions.Carrier)
      → d.action_type ≡ protect pin domain
      → actions.get (at (select_map d.action_type) r.1) d.cert_fingerprint
        ≡ some (directive_to_entry d)
      → actions.get r.1.protect_map d.cert_fingerprint ≡ some (directive_to_entry d)
  unfolding select_map
  in_protect_map r e h =
      subst
        (λ a. actions.get (at (select_map a) r.1) d.cert_fingerprint ≡ some (directive_to_entry d))
        e h

  own_packet :
      {pin : Fingerprint} {domain : Text} (ctx : TcContext)
      → d.action_type ≡ protect pin domain
      → (write_directive writer settings d s).0 ≡ ExecutionOutcome.success
      → extract_cert_fingerprint ctx ≡ ok d.cert_fingerprint
      → ((fp : Fingerprint) (entry : BpfActionEntry)
          → actions.get (write_directive writer settings d s).1.protect_map fp ≡ some entry
          → length entry.pinned_fp ≡ 32)
      → (tlapix_protect actions ctx (write_directive writer settings d s).1.protect_map
          ≡ tc_act_shot)
        ↔ (d.cert_fingerprint ≢ pin)
  own_packet ctx protects success carries sized =
      let result = write_directive writer settings d s in
      let held =
        in_protect_map result protects
          (stored (write_directive_cases writer settings d s) success) in
      let pins = pinned_by d protects in
      let raw = protect_iff actions ctx result.1.protect_map sized in
      (
        λ shot same. let (fp, entry, carried, there, differs) = raw.0 shot in differs (cc),
        λ differs. raw.1 (
          d.cert_fingerprint,
          directive_to_entry d,
          carries,
          held,
          λ same. differs (same ∙ pins),
        ),
      )

  at_isolate_map :
      {target : Fingerprint} (r : ExecutionOutcome × Service actions.Carrier) (fp : Fingerprint)
      → d.action_type ≡ isolate target
      → actions.get (at (select_map d.action_type) r.1) fp
        ≡ actions.get (at (select_map d.action_type) s) fp
      → actions.get r.1.isolate_map fp ≡ actions.get s.isolate_map fp
  unfolding select_map
  at_isolate_map r fp e h =
      subst (λ a. actions.get (at (select_map a) r.1) fp ≡ actions.get (at (select_map a) s) fp) e h

  at_protect_map :
      {pin : Fingerprint} {domain : Text} (r : ExecutionOutcome × Service actions.Carrier)
      (fp : Fingerprint)
      → d.action_type ≡ protect pin domain
      → actions.get (at (select_map d.action_type) r.1) fp
        ≡ actions.get (at (select_map d.action_type) s) fp
      → actions.get r.1.protect_map fp ≡ actions.get s.protect_map fp
  unfolding select_map
  at_protect_map r fp e h =
      subst (λ a. actions.get (at (select_map a) r.1) fp ≡ actions.get (at (select_map a) s) fp) e h

  same_fingerprint : (a b : Fingerprint) → (a ≡ b) ⊎ (a ≢ b)
  same_fingerprint a b = elim (Bool-cases (bytes_eq a b)) [
    | inl same ↦ inl ((bytes_eq_iff a b).0 same)
    | inr differs ↦ inr (λ same. cc ((bytes_eq_iff a b).1 same))
  ]

  -- What a written directive to isolate changes in the kernel, as long as the map is the one that the
  -- writer left: the isolate program drops every packet from whose certificate it takes the fingerprint of
  -- the directive, and judges every other packet that carries a certificate as before. (The program takes
  -- the first 32 bytes of the certificate for its fingerprint.)
  pub isolate-enforced :
      {target fp : Fingerprint} (ctx : TcContext)
      → d.action_type ≡ isolate target
      → (write_directive writer settings d s).0 ≡ ExecutionOutcome.success
      → extract_cert_fingerprint ctx ≡ ok fp
      → ((fp ≡ d.cert_fingerprint)
          × (tlapix_isolate actions ctx (write_directive writer settings d s).1.isolate_map
              ≡ tc_act_shot))
        ⊎ ((fp ≢ d.cert_fingerprint)
            × (tlapix_isolate actions ctx (write_directive writer settings d s).1.isolate_map
                ≡ tlapix_isolate actions ctx s.isolate_map))
  isolate-enforced {target} {fp} ctx isolates success carries =
      let result = write_directive writer settings d s in
      let outcome = write_directive_cases writer settings d s in
      elim (same_fingerprint fp d.cert_fingerprint) [
        | inl same ↦ inl (
          same,
          (isolate_iff actions ctx result.1.isolate_map).1 (
            d.cert_fingerprint,
            directive_to_entry d,
            carries ∙ ap ok same,
            in_isolate_map result isolates (stored outcome success),
            active d,
          ),
        )
        | inr differs ↦ inr (
          differs,
          isolate_of_extract actions ctx result.1.isolate_map carries
              ∙ ap isolate_verdict
                  (at_isolate_map result fp isolates (untouched fp outcome success differs))
              ∙ sym (isolate_of_extract actions ctx s.isolate_map carries),
        )
      ]

  -- What a written directive to protect changes in the kernel, as long as the map is the one that the
  -- writer left: the protect program drops the packets from whose certificate it takes the fingerprint of
  -- the directive exactly if the directive pins another one, and judges every other packet that carries a
  -- certificate as before. (The program takes the first 32 bytes of the certificate for its fingerprint;
  -- condition: the pinned fingerprints in that map have 32 bytes.)
  pub protect-enforced :
      {pin fp : Fingerprint} {domain : Text} (ctx : TcContext)
      → d.action_type ≡ protect pin domain
      → (write_directive writer settings d s).0 ≡ ExecutionOutcome.success
      → extract_cert_fingerprint ctx ≡ ok fp
      → ((other : Fingerprint) (entry : BpfActionEntry)
          → actions.get (write_directive writer settings d s).1.protect_map other ≡ some entry
          → length entry.pinned_fp ≡ 32)
      → ((fp ≡ d.cert_fingerprint)
          × ((tlapix_protect actions ctx (write_directive writer settings d s).1.protect_map
                ≡ tc_act_shot)
              ↔ (d.cert_fingerprint ≢ pin)))
        ⊎ ((fp ≢ d.cert_fingerprint)
            × (tlapix_protect actions ctx (write_directive writer settings d s).1.protect_map
                ≡ tlapix_protect actions ctx s.protect_map))
  protect-enforced {pin} {fp} {domain} ctx protects success carries sized =
      let result = write_directive writer settings d s in
      let outcome = write_directive_cases writer settings d s in
      elim (same_fingerprint fp d.cert_fingerprint) [
        | inl same ↦ inl (same, own_packet ctx protects success (carries ∙ ap ok same) sized)
        | inr differs ↦ inr (
          differs,
          protect_of_get actions ctx result.1.protect_map s.protect_map carries
              (at_protect_map result fp protects (untouched fp outcome success differs)),
        )
      ]
