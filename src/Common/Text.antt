-- ===== src/Common/Text.antt =====
-- Texts as the bytes of their UTF-8 form, and the operations on `str` that the source calls.
use Prim.Native.Char.{code}
use Prim.Native.String.{String}
use tlapix.Common.{
  ℕ, ◌+◌, ◌≡◌, ◌≢◌, refl, ap, Bool, true, false, ◌&&◌, ◌||◌, Option, none, some, List, [], ◌∷◌,
  ◌++◌, map, leb, ◌==◌, if◌then◌else◌, bytes_eq, bytes_eq_iff, bytes_eq_refl, length, length-append,
  arith,
}

abbrev pub Text : Type 0
Text = List ℕ

-- The bytes of an ASCII literal.
abbrev pub text : String → Text
text String.[] = []
text (String.◌∷◌ c s) = code c ∷ text s

unfoldable pub lower_byte : ℕ → ℕ
lower_byte c = if leb b'A' c && leb c b'Z' then c + 32 else c

unfoldable pub to_ascii_lowercase : Text → Text
unfolding lower_byte
to_ascii_lowercase s = map lower_byte s

unfoldable pub eq_ignore_ascii_case : Text → Text → Bool
unfolding to_ascii_lowercase bytes_eq
eq_ignore_ascii_case a b = bytes_eq (to_ascii_lowercase a) (to_ascii_lowercase b)

-- `s.contains(c)` for an ASCII character.
unfoldable pub contains : ℕ → Text → Bool
contains c [] = false
contains c (x ∷ s) = x == c || contains c s

unfoldable pub is_empty {ℓ} : {A : Type ℓ} → List A → Bool
is_empty [] = true
is_empty (x ∷ s) = false

unfoldable pub strip_prefix : Text → Text → Option Text
strip_prefix [] s = some s
strip_prefix (p ∷ ps) [] = none
strip_prefix (p ∷ ps) (x ∷ s) = let rest = strip_prefix ps s in if p == x then rest else none

abbrev prepend : ℕ → Option Text → Option Text
prepend c none = none
prepend c (some s) = some (c ∷ s)

unfoldable pub strip_suffix : Text → Text → Option Text
strip_suffix suffix [] = if bytes_eq [] suffix then some [] else none
strip_suffix suffix (c ∷ s) =
    let rest = strip_suffix suffix s in if bytes_eq (c ∷ s) suffix then some [] else prepend c rest

pub strip_prefix-some : (p s : Text) {r : Text} → strip_prefix p s ≡ some r → s ≡ p ++ r
unfolding strip_prefix
strip_prefix-some [] s h = ground arith
strip_prefix-some (p ∷ ps) [] h = cc
strip_prefix-some (p ∷ ps) (x ∷ s) {r} h = ground (arith, strip_prefix-some ps s {r = r})

pub strip_prefix-append : (p r : Text) → strip_prefix p (p ++ r) ≡ some r
unfolding strip_prefix
strip_prefix-append [] r = refl
strip_prefix-append (p ∷ ps) r = ground (arith, strip_prefix-append ps r)

pub strip_suffix-some : (q s : Text) {r : Text} → strip_suffix q s ≡ some r → s ≡ r ++ q
unfolding strip_suffix
strip_suffix-some q [] {r} h = ground (arith, bytes_eq_iff [] q)
strip_suffix-some q (c ∷ s) {r = []} h = ground (arith, bytes_eq_iff (c ∷ s) q)
strip_suffix-some q (c ∷ s) {r = x ∷ r} h =
    ground (arith, bytes_eq_iff (c ∷ s) q, strip_suffix-some q s {r = r})

append_ne : (c : ℕ) (r q : Text) → (c ∷ r) ++ q ≢ q
append_ne c r q e = absurd (omega (arith, ap length e, length-append (c ∷ r) q))

strip_suffix_self : (q : Text) → strip_suffix q q ≡ some []
unfolding strip_suffix
strip_suffix_self [] = ground (arith, bytes_eq_refl [])
strip_suffix_self (c ∷ q) = rw (bytes_eq_refl (c ∷ q))

pub strip_suffix-append : (r q : Text) → strip_suffix q (r ++ q) ≡ some r
unfolding strip_suffix
strip_suffix-append [] q = strip_suffix_self q
strip_suffix-append (c ∷ r) q =
    ground (arith, bytes_eq_iff (c ∷ r ++ q) q, append_ne c r q, strip_suffix-append r q)
