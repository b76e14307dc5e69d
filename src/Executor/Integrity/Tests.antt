-- ===== src/Executor/Integrity/Tests.antt =====
-- A validation, and its theorem at it.
use tlapix.Common.{
  ℕ, ◌+◌, ◌≡◌, refl, Bool, ◌||◌, List, [], ◌∷◌, if◌then◌else◌, bytes_eq, Result, ok, err,
}
use tlapix.Common.Text.{Text, text}
use tlapix.Executor.Integrity.{
  ProgramManifest, checksum_mismatch, validate_single_program, validate_loop,
  validate_program_integrity,
}
use tlapix.Executor.Integrity.Validated.{Validated, validate_program_integrity-Validated}

-- Two files, of which the second cannot be read.
abbrev there : Text → Bool
there path = bytes_eq path (text "a.o") || bytes_eq path (text "b.o")

abbrev read : Text → Result ℕ (List ℕ)
read path = if bytes_eq path (text "a.o") then ok (1 ∷ 2 ∷ []) else err 13

abbrev sum : List ℕ → List ℕ
sum [] = 0 ∷ []
sum (b ∷ contents) = elim (sum contents) [ [] ↦ [] | s ∷ (rest → ih) ↦ (b + s) ∷ [] ]

abbrev manifest : ProgramManifest
manifest = record {
  programs =
      record { name = text "collector"; path = text "a.o"; expected_sha256 = 3 ∷ [] }
      ∷ record { name = text "executor"; path = text "a.o"; expected_sha256 = 4 ∷ [] }
      ∷ record { name = text "other"; path = text "c.o"; expected_sha256 = 3 ∷ [] }
      ∷ [];
}

mismatch_run :
    validate_program_integrity there read sum manifest
    ≡ err (checksum_mismatch (text "executor") (4 ∷ []) (3 ∷ []))
unfolding bytes_eq validate_single_program validate_loop validate_program_integrity
mismatch_run = refl

validate_program_integrity-Validated_example :
    Validated there read sum manifest.programs (validate_program_integrity there read sum manifest)
validate_program_integrity-Validated_example =
    validate_program_integrity-Validated there read sum manifest
