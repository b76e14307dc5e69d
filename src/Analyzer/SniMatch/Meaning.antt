-- ===== src/Analyzer/SniMatch/Meaning.antt =====
-- What a match of crates/tlapix-analyzer/src/sni_match.rs means, in terms of labels.
use mathlib.Core.List.{Memᴰ}
use tlapix.Common.{
  ◌≡◌, ◌≢◌, refl, ◌↔◌, ◌⊎◌, inl, inr, true, false, List, [], ◌∷◌, ◌++◌, arith, bytes_eq,
  bytes_eq_iff, Option-cases, Bool-cases,
}
use tlapix.Common.Text.{
  Text, to_ascii_lowercase, strip_prefix, strip_suffix, is_empty, contains, strip_prefix-some,
  strip_prefix-append, strip_suffix-some, strip_suffix-append,
}
use tlapix.Analyzer.SniMatch.{wildcard, wildcard_matches, sni_matches_san, sni_matches_any_san}

-- One label, then the base domain of the wildcard.
abbrev pub IsWildcardMatch : Text → Text → Type 0
IsWildcardMatch sni san =
    (label base : Text) × (san ≡ b'*' ∷ b'.' ∷ base)
    × (sni ≡ label ++ b'.' ∷ base)
    × (base ≢ [])
    × (label ≢ [])
    × (contains b'.' label ≡ false)

wildcard_sound : (sni san : Text) → wildcard_matches sni san ≡ true → IsWildcardMatch sni san
unfolding wildcard_matches is_empty
wildcard_sound sni san h = elim (Option-cases (strip_prefix wildcard san)) [
  | inl bare ↦ absurd (ground arith)
  | inr (base, starred) ↦ elim (Option-cases (strip_suffix (b'.' ∷ base) sni)) [
    | inl other ↦ absurd (ground arith)
    | inr (label, below) ↦ (
      label,
      base,
      strip_prefix-some wildcard san starred,
      strip_suffix-some (b'.' ∷ base) sni below,
      ground arith,
      ground arith,
      ground arith,
    )
  ]
]

wildcard_complete : (sni san : Text) → IsWildcardMatch sni san → wildcard_matches sni san ≡ true
unfolding wildcard_matches is_empty
wildcard_complete sni san (label, base, starred, below, named, labelled, single) =
    ground (arith, strip_prefix-append wildcard base, strip_suffix-append label (b'.' ∷ base))

-- A host name matches a subject alternative name exactly when they are equal up to ASCII case, or
-- the alternative name is `*.` and a base domain, and the host name is one label, not empty and
-- without a dot, in front of that base domain, up to ASCII case.
pub sni_matches_san_iff :
    (sni san : Text)
    → (sni_matches_san sni san ≡ true) ↔ (
        (to_ascii_lowercase sni ≡ to_ascii_lowercase san)
        ⊎ IsWildcardMatch (to_ascii_lowercase sni) (to_ascii_lowercase san))
unfolding sni_matches_san
sni_matches_san_iff sni san = (
  λ h. elim (Bool-cases (bytes_eq (to_ascii_lowercase sni) (to_ascii_lowercase san))) [
    | inl same ↦ inl ((bytes_eq_iff _ _).0 same)
    | inr differ ↦ inr (wildcard_sound _ _ (ground arith))
  ],
  λ c. elim c [
    | inl same ↦ rw ((bytes_eq_iff _ _).1 same)
    | inr wild ↦ ground (arith, wildcard_complete _ _ wild)
  ],
)

any_sound :
    (sni : Text) (sans : List Text)
    → sni_matches_any_san sni sans ≡ true
    → (san : Text) × Memᴰ san sans × (sni_matches_san sni san ≡ true)
unfolding sni_matches_any_san
any_sound sni [] h = cc
any_sound sni (san ∷ sans) h = elim (Bool-cases (sni_matches_san sni san)) [
  | inl found ↦ (san, Memᴰ.head refl, found)
  | inr missed ↦
      let (other, m, found) = any_sound sni sans (ground arith) in (other, Memᴰ.tail m, found)
]

any_complete :
    (sni san : Text) (sans : List Text)
    → Memᴰ san sans
    → sni_matches_san sni san ≡ true
    → sni_matches_any_san sni sans ≡ true
unfolding sni_matches_any_san
any_complete sni san [] m h = elim m [ ]
any_complete sni san (x ∷ sans) (Memᴰ.head e) h = ground arith
any_complete sni san (x ∷ sans) (Memᴰ.tail m) h = ground (arith, any_complete sni san sans m h)

-- A host name matches a list exactly when it matches a member.
pub sni_matches_any_san_iff :
    (sni : Text) (sans : List Text)
    → (sni_matches_any_san sni sans ≡ true)
      ↔ ((san : Text) × Memᴰ san sans × (sni_matches_san sni san ≡ true))
sni_matches_any_san_iff sni sans =
    (any_sound sni sans, λ (san, m, h). any_complete sni san sans m h)
