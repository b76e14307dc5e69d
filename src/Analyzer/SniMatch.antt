-- ===== src/Analyzer/SniMatch.antt =====
-- crates/tlapix-analyzer/src/sni_match.rs: whether a host name matches a subject alternative name.
pub mod Meaning
use tlapix.Common.{
  Bool, true, false, not, ◌&&◌, ◌||◌, none, some, List, [], ◌∷◌, if◌then◌else◌, bytes_eq,
}
use tlapix.Common.Text.{
  Text, text, to_ascii_lowercase, strip_prefix, strip_suffix, is_empty, contains,
}

-- `"*."`
abbrev pub wildcard : Text
wildcard = b'*' ∷ b'.' ∷ []

-- Case 2: the wildcard, over the names in lower case.
unfoldable pub wildcard_matches : Text → Text → Bool
wildcard_matches sni san = elim (strip_prefix wildcard san) [
  | none ↦ false
  | some base_domain ↦
      if is_empty base_domain then false else elim (strip_suffix (b'.' ∷ base_domain) sni) [
        | none ↦ false
        | some subdomain ↦ not (is_empty subdomain) && not (contains b'.' subdomain)
      ]
]

unfoldable pub sni_matches_san : Text → Text → Bool
unfolding wildcard_matches to_ascii_lowercase bytes_eq
sni_matches_san sni san =
    if bytes_eq (to_ascii_lowercase sni) (to_ascii_lowercase san)
    then true
    else wildcard_matches (to_ascii_lowercase sni) (to_ascii_lowercase san)

-- `sans.iter().any(…)`
unfoldable pub sni_matches_any_san : Text → List Text → Bool
unfolding sni_matches_san
sni_matches_any_san sni [] = false
sni_matches_any_san sni (san ∷ sans) = sni_matches_san sni san || sni_matches_any_san sni sans
