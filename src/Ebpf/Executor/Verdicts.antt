-- ===== src/Ebpf/Executor/Verdicts.antt =====
-- When the enforcing programs of crates/tlapix-ebpf/src/executor.rs drop a packet.
use Prim.Native.Nat.{bit_and}
use tlapix.Common.{
  ℕ, ◌≡◌, ◌≢◌, ◌↔◌, false, Option, none, some, ok, length, ◌==◌, if◌then◌else◌, arith, Bool-cases,
  inl, inr,
}
use tlapix.Ebpf.Packet.{TcContext, tc_act_ok, tc_act_shot}
use tlapix.Ebpf.Maps.{Fingerprint, BpfMap, BpfActionEntry, flag_active}
use tlapix.Ebpf.Executor.Headers.{extract_cert_fingerprint}
use tlapix.Ebpf.Executor.Programs.{
  fingerprints_equal, tlapix_protect, try_protect, tlapix_isolate, try_isolate,
}
use tlapix.Ebpf.Executor.Equality.{fingerprints_equal_iff, length-extract}

-- The verdict on the entry that the isolate map holds for a fingerprint, as documented.
abbrev pub isolate_verdict : Option BpfActionEntry → ℕ
isolate_verdict none = tc_act_ok
isolate_verdict (some e) = if bit_and e.flags flag_active == 0 then tc_act_ok else tc_act_shot

module _ (actions : BpfMap BpfActionEntry) (ctx : TcContext) (m : actions.Carrier) where
  -- The isolate program drops a packet exactly when it carries a certificate whose fingerprint is a
  -- key of the isolate map, with an entry that is active.
  pub isolate_iff : (tlapix_isolate actions ctx m ≡ tc_act_shot) ↔ (
      (fp : Fingerprint) × (entry : BpfActionEntry) × (extract_cert_fingerprint ctx ≡ ok fp)
      × (actions.get m fp ≡ some entry)
      × ((bit_and entry.flags flag_active == 0) ≡ false))
  unfolding tlapix_isolate try_isolate
  isolate_iff = ground arith

  pub isolate_of_extract :
      {fp : Fingerprint}
      → extract_cert_fingerprint ctx ≡ ok fp
      → tlapix_isolate actions ctx m ≡ isolate_verdict (actions.get m fp)
  unfolding tlapix_isolate try_isolate
  isolate_of_extract h = ground arith

  -- The verdict depends on the entry for the fingerprint of the packet alone.
  pub protect_of_get :
      (m' : actions.Carrier) {fp : Fingerprint}
      → extract_cert_fingerprint ctx ≡ ok fp
      → actions.get m fp ≡ actions.get m' fp
      → tlapix_protect actions ctx m ≡ tlapix_protect actions ctx m'
  unfolding tlapix_protect try_protect
  protect_of_get m' h same = ground arith

  protect_raw : (tlapix_protect actions ctx m ≡ tc_act_shot) ↔ (
      (fp : Fingerprint) × (entry : BpfActionEntry) × (extract_cert_fingerprint ctx ≡ ok fp)
      × (actions.get m fp ≡ some entry)
      × (fingerprints_equal fp entry.pinned_fp ≡ false))
  unfolding tlapix_protect try_protect
  protect_raw = ground arith

  -- The protect program drops a packet exactly when it carries a certificate whose own fingerprint is
  -- a key of the protect map, with an entry that pins another fingerprint. So a certificate that is
  -- no key of the map passes, whatever the map pins. (Condition: pinned fingerprints have 32 bytes.)
  pub protect_iff :
      ((fp : Fingerprint) (entry : BpfActionEntry)
        → actions.get m fp ≡ some entry
        → length entry.pinned_fp ≡ 32)
      → (tlapix_protect actions ctx m ≡ tc_act_shot) ↔ (
          (fp : Fingerprint) × (entry : BpfActionEntry) × (extract_cert_fingerprint ctx ≡ ok fp)
          × (actions.get m fp ≡ some entry)
          × (fp ≢ entry.pinned_fp))
  protect_iff sized = (
    λ shot.
        let (fp, entry, found, held, differs) = protect_raw.0 shot in
        (
          fp,
          entry,
          found,
          held,
          λ same. cc (
              (fingerprints_equal_iff fp entry.pinned_fp (length-extract ctx found)
                  (sized fp entry held)).1
                same),
        ),
    λ (fp, entry, found, held, differs). protect_raw.1 (
      fp,
      entry,
      found,
      held,
      elim (Bool-cases (fingerprints_equal fp entry.pinned_fp)) [
        | inl same ↦ absurd (
            differs (
              (fingerprints_equal_iff fp entry.pinned_fp (length-extract ctx found)
                  (sized fp entry held)).0
                same))
        | inr no_match ↦ no_match
      ],
    ),
  )
