-- ===== src/Types/Completeness.antt =====
-- The bits of `completeness_flags` (crates/tlapix-common/src/types.rs).
use Prim.Native.Nat.{bit_and}
use tlapix.Common.{ℕ, Bool, ◌==◌}

abbrev pub not_before : ℕ
not_before = 8

abbrev pub not_after : ℕ
not_after = 16

abbrev pub sans : ℕ
sans = 32

abbrev pub key_algorithm : ℕ
key_algorithm = 64

abbrev pub key_size : ℕ
key_size = 128

-- `flags & bit == 0`
unfoldable pub lacks : ℕ → ℕ → Bool
lacks flags bit = bit_and flags bit == 0

-- `flags & required == required`
unfoldable pub has : ℕ → ℕ → Bool
has flags required = bit_and flags required == required
