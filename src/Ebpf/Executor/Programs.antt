-- ===== src/Ebpf/Executor/Programs.antt =====
-- `tlapix_protect` and `tlapix_isolate` of crates/tlapix-ebpf/src/executor.rs.
use Prim.Native.Nat.{bit_and}
use tlapix.Common.{
  ℕ, zero, suc, Bool, true, false, not, Option, none, some, List, get_elem?, ◌==◌, if◌then◌else◌,
  Result, ok, err,
}
use tlapix.Common.Attempt.{◌>>=◌}
use tlapix.Ebpf.Packet.{TcContext, tc_act_ok, tc_act_shot}
use tlapix.Ebpf.Maps.{Fingerprint, BpfMap, BpfActionEntry, flag_active}
use tlapix.Ebpf.Executor.Headers.{extract_cert_fingerprint}

-- `a[i] != b[i]` at an index of two arrays of 32 bytes.
abbrev differ_at : List ℕ → List ℕ → ℕ → Bool
differ_at a b i = differ (get_elem? a i) (get_elem? b i)
  where
    differ : Option ℕ → Option ℕ → Bool
    differ (some x) (some y) = not (x == y)
    differ none none = false
    differ _ _ = true

-- The loop of `fingerprints_equal`; `k` rounds are left.
unfoldable pub equal_loop : ℕ → ℕ → Fingerprint → Fingerprint → Bool
equal_loop zero i a b = true
equal_loop (suc k) i a b =
    let rest = equal_loop k (suc i) a b in if differ_at a b i then false else rest

unfoldable pub fingerprints_equal : Fingerprint → Fingerprint → Bool
fingerprints_equal a b = equal_loop 32 0 a b

module _ (map : BpfMap BpfActionEntry) where
  unfoldable pub try_protect : TcContext → map.Carrier → Result ℕ ℕ
  try_protect ctx action_protect = do
    fingerprint ← extract_cert_fingerprint ctx
    elim (map.get action_protect fingerprint) [
      | some entry ↦
          if not (fingerprints_equal fingerprint entry.pinned_fp)
          then ok tc_act_shot
          else ok tc_act_ok
      | none ↦ ok tc_act_ok
    ]

  unfoldable pub tlapix_protect : TcContext → map.Carrier → ℕ
  tlapix_protect ctx action_protect = elim (try_protect ctx action_protect) [
    | ok action ↦ action
    | err _ ↦ tc_act_ok
  ]

  unfoldable pub try_isolate : TcContext → map.Carrier → Result ℕ ℕ
  try_isolate ctx action_isolate = do
    fingerprint ← extract_cert_fingerprint ctx
    elim (map.get action_isolate fingerprint) [
      | some entry ↦
          if not (bit_and entry.flags flag_active == 0) then ok tc_act_shot else ok tc_act_ok
      | none ↦ ok tc_act_ok
    ]

  unfoldable pub tlapix_isolate : TcContext → map.Carrier → ℕ
  tlapix_isolate ctx action_isolate = elim (try_isolate ctx action_isolate) [
    | ok action ↦ action
    | err _ ↦ tc_act_ok
  ]
