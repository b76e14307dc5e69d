-- ===== src/Ebpf/Executor/Equality.antt =====
-- The byte comparison of crates/tlapix-ebpf/src/executor.rs decides equality of fingerprints.
use tlapix.Common.{
  ℕ, zero, suc, ◌≡◌, refl, ◌↔◌, true, List, [], ◌∷◌, ok, length, replicate, bytes_eq, bytes_eq_iff,
  length-set, arith,
}
use tlapix.Ebpf.Packet.{TcContext}
use tlapix.Ebpf.Maps.{Fingerprint}
use tlapix.Ebpf.Collector.Headers.{Cert}
use tlapix.Ebpf.Collector.Events.{pseudo_fp_loop, pseudo_fingerprint}
use tlapix.Ebpf.Executor.Headers.{fingerprint_loop, parse_cert, extract_cert_fingerprint}
use tlapix.Ebpf.Executor.Programs.{equal_loop, fingerprints_equal}

equal_loop-suc :
    (k i : ℕ) (x y : ℕ) (a b : List ℕ) → equal_loop k (suc i) (x ∷ a) (y ∷ b) ≡ equal_loop k i a b
unfolding equal_loop
equal_loop-suc zero i x y a b = refl
equal_loop-suc (suc k) i x y a b = rw (equal_loop-suc k (suc i) x y a b)

equal_loop-eq :
    (k : ℕ) (a b : List ℕ) → length a ≡ k → length b ≡ k → equal_loop k 0 a b ≡ bytes_eq a b
unfolding equal_loop bytes_eq
equal_loop-eq zero [] [] p q = refl
equal_loop-eq (suc k) (x ∷ a) (y ∷ b) p q =
    ground (arith, equal_loop-suc k 0 x y a b, equal_loop-eq k a b)
equal_loop-eq k a b p q = absurd (omega arith)

-- On arrays of 32 bytes the loop answers true exactly when they are equal.
pub fingerprints_equal_iff :
    (a b : Fingerprint) → length a ≡ 32 → length b ≡ 32 → (fingerprints_equal a b ≡ true) ↔ (a ≡ b)
unfolding fingerprints_equal
fingerprints_equal_iff a b p q = rw (equal_loop-eq 32 a b p q) (bytes_eq_iff a b)

length-pseudo_fp_loop :
    (ctx : TcContext) (o k i : ℕ) (fp : List ℕ) → length (pseudo_fp_loop ctx o k i fp) ≡ length fp
unfolding pseudo_fp_loop
length-pseudo_fp_loop ctx o zero i fp = refl
length-pseudo_fp_loop ctx o (suc k) i fp =
    grind (arith, length-pseudo_fp_loop ctx o k, length-set {0})

pub length-pseudo_fingerprint :
    (ctx : TcContext) (c : Cert) → length (pseudo_fingerprint ctx c) ≡ 32
unfolding pseudo_fingerprint
length-pseudo_fingerprint ctx c = length-pseudo_fp_loop ctx _ _ 0 (replicate 32 0)

length-fingerprint_loop :
    (ctx : TcContext) (o k i : ℕ) (fp : List ℕ) → length (fingerprint_loop ctx o k i fp) ≡ length fp
unfolding fingerprint_loop
length-fingerprint_loop ctx o zero i fp = refl
length-fingerprint_loop ctx o (suc k) i fp =
    grind (arith, length-fingerprint_loop ctx o k, length-set {0})

length-parse_cert :
    (ctx : TcContext) (o : ℕ) {fp : Fingerprint} → parse_cert ctx o ≡ ok fp → length fp ≡ 32
unfolding parse_cert
length-parse_cert ctx o h = grind (arith, length-fingerprint_loop)

pub length-extract :
    (ctx : TcContext) {fp : Fingerprint} → extract_cert_fingerprint ctx ≡ ok fp → length fp ≡ 32
unfolding extract_cert_fingerprint
length-extract ctx h = grind (arith, length-parse_cert)
