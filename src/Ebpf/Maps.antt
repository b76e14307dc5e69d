-- ===== src/Ebpf/Maps.antt =====
-- crates/tlapix-ebpf/src/maps.rs: the maps of the kernel programs and their helpers. The maps
-- themselves belong to the kernel, so their operations are parameters; an `insert` or a `write` that
-- the kernel refuses returns the map as it was.
use tlapix.Common.{ℕ, ◌+◌, ◌%◌, ◌^◌, Bool, Option, none, some, List}

abbrev pub Fingerprint : Type 0
Fingerprint = List ℕ

-- A BPF hash map from fingerprints. `write` is an assignment through `get_ptr_mut`.
pub record BpfMap (V : Type 0) : Type 1 where
  pub Carrier : Type 0
  pub get : Carrier → Fingerprint → Option V
  pub insert : Carrier → Fingerprint → V → Carrier
  pub write : Carrier → Fingerprint → V → Carrier

-- `EVENTS`: whether a slot can be reserved, and what the buffer is after `submit`.
pub record RingBuf (E : Type 0) : Type 1 where
  pub Carrier : Type 0
  pub reserve : Carrier → Bool
  pub submit : Carrier → E → Carrier

-- Entry of an action map (also crates/tlapix-common/src/bpf.rs).
pub record BpfActionEntry : Type 0 where
  pub fingerprint : Fingerprint
  pub action : ℕ
  pub severity : ℕ
  pub created_ts : ℕ
  pub pinned_fp : Fingerprint
  pub flags : ℕ

abbrev pub flag_active : ℕ
flag_active = 1

abbrev pub flag_failed : ℕ
flag_failed = 2

module _ (seen_certs cert_stats : BpfMap ℕ) where
  -- The count is a u64, and its increment wraps.
  unfoldable pub update_cert_stats : Fingerprint → cert_stats.Carrier → cert_stats.Carrier
  update_cert_stats fp stats = elim (cert_stats.get stats fp) [
    | some n ↦ cert_stats.write stats fp ((n + 1) % 2 ^ 64)
    | none ↦ cert_stats.insert stats fp 1
  ]

  unfoldable pub is_new_cert :
      Fingerprint
      → ℕ
      → seen_certs.Carrier
      → cert_stats.Carrier
      → ℕ × seen_certs.Carrier × cert_stats.Carrier
  is_new_cert fp timestamp_ns seen stats = elim (seen_certs.get seen fp) [
    | some _ ↦ (0, seen, update_cert_stats fp stats)
    | none ↦ (1, seen_certs.insert seen fp timestamp_ns, cert_stats.insert stats fp 1)
  ]
