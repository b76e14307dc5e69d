-- ===== src/Analyzer/Reasoning.antt =====
-- The last step of `build_reasoning` in crates/tlapix-analyzer/src/anomaly.rs and shadow.rs: a text
-- of more than 500 bytes is cut by `&text[..497]`, which panics inside a character.
use tlapix.Common.{
  ℕ, zero, suc, ◌<◌, ◌≤◌, ◌≡◌, refl, ◌||◌, ◌⊎◌, inl, inr, Bool, true, false, Option, none, some,
  ◌++◌, ltb, leb, ◌==◌, if◌then◌else◌, length, length-append, length-take, get_elem?, take, arith,
  Bool-cases, ltb→lt,
}
use tlapix.Common.Text.{Text, text}

-- `str::is_char_boundary`: the start, the end, or a byte that continues no character.
unfoldable pub is_char_boundary : Text → ℕ → Bool
is_char_boundary s zero = true
is_char_boundary s (suc i) = elim (get_elem? s (suc i)) [
  | none ↦ suc i == length s
  | some b ↦ ltb b 128 || leb 192 b
]

-- `none` is the panic.
unfoldable pub truncate : Text → Option Text
unfolding is_char_boundary
truncate reasoning =
    if ltb 500 (length reasoning)
    then (if is_char_boundary reasoning 497 then some (take 497 reasoning ++ text "...") else none)
    else some reasoning

-- What is returned has at most 500 bytes, and is the text itself if that has at most 500; nothing is
-- returned exactly for a longer text whose byte 497 lies inside a character.
pub truncate_cases :
    (s : Text)
    → ((r : Text) × (truncate s ≡ some r)
        × (length r ≤ 500)
        × ((r ≡ s) ⊎ ((500 < length s) × (r ≡ take 497 s ++ text "..."))))
      ⊎ ((truncate s ≡ none) × (500 < length s) × (is_char_boundary s 497 ≡ false))
unfolding truncate
truncate_cases s = elim (Bool-cases (ltb 500 (length s))) [
  | inr short ↦ inl (s, rw short, ground arith, inl refl)
  | inl long ↦ elim (Bool-cases (is_char_boundary s 497)) [
    | inl whole ↦ inl (
      take 497 s ++ text "...",
      rw (long, whole),
      omega (arith, length-append (take 497 s) (text "..."), length-take 497 s),
      inr (ltb→lt 500 (length s) long, refl),
    )
    | inr inside ↦ inr (rw (long, inside), ltb→lt 500 (length s) long, inside)
  ]
]
