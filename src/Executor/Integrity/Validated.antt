-- ===== src/Executor/Integrity/Validated.antt =====
-- What a validation by crates/tlapix-executor/src/integrity.rs says of the programs.
use tlapix.Common.{
  ℕ, ◌≡◌, ◌⊎◌, inl, inr, refl, Bool, true, false, List, [], ◌∷◌, bytes_eq, bytes_eq_iff, Bool-cases,
  Result, ok, err,
}
use tlapix.Common.Text.{Text}
use tlapix.Executor.Integrity.{
  ProgramEntry, ProgramManifest, IntegrityError, checksum_mismatch, file_not_found, io_error,
  validate_single_program, validate_loop, validate_program_integrity,
}

module _ {I : Type 0} (path_exists : Text → Bool) (read : Text → Result I (List ℕ))
    (sha256 : List ℕ → List ℕ) where
  -- The file is there, can be read, and has the expected hash.
  abbrev pub IsIntact : ProgramEntry → Type 0
  IsIntact e =
      (path_exists e.path ≡ true)
      × (contents : List ℕ) × (read e.path ≡ ok contents)
      × (sha256 contents ≡ e.expected_sha256)

  -- What is wrong with a program, by its error.
  abbrev pub IsCause : ProgramEntry → IntegrityError I → Type 0
  IsCause e (file_not_found name path) =
      (name ≡ e.name) × (path ≡ e.path) × (path_exists e.path ≡ false)
  IsCause e (io_error name error) =
      (name ≡ e.name) × (path_exists e.path ≡ true) × (read e.path ≡ err error)
  IsCause e (checksum_mismatch name expected actual) =
      (name ≡ e.name)
      × (expected ≡ e.expected_sha256)
      × (path_exists e.path ≡ true)
      × (contents : List ℕ) × (read e.path ≡ ok contents)
      × (actual ≡ sha256 contents)
      × (bytes_eq actual expected ≡ false)

  -- Every program is intact, or the error is that of the first which is not.
  abbrev pub Validated : List ProgramEntry → Result (IntegrityError I) (Unit {0}) → Type 0
  Validated [] r = r ≡ ok tt
  Validated (e ∷ programs) r =
      (IsIntact e × Validated programs r)
      ⊎ ((error : IntegrityError I) × (r ≡ err error) × IsCause e error)

  Single : ProgramEntry → Result (IntegrityError I) (Unit {0}) → Type 0
  Single e r =
      ((r ≡ ok tt) × IsIntact e) ⊎ ((error : IntegrityError I) × (r ≡ err error) × IsCause e error)

  validate_single_program_cases :
      (e : ProgramEntry) → Single e (validate_single_program path_exists read sha256 e)
  unfolding Single validate_single_program
  validate_single_program_cases e = elim (Bool-cases (path_exists e.path)) [
    | inr gone ↦ inr (file_not_found e.name e.path, rw gone refl, (refl, refl, gone))
    | inl there ↦ by_read (read e.path) refl there
  ]
    where
      by_hash :
          (contents : List ℕ)
          → read e.path ≡ ok contents
          → path_exists e.path ≡ true
          → ((validate_single_program path_exists read sha256 e ≡ ok tt) × IsIntact e)
            ⊎ ((error : IntegrityError I) × (validate_single_program path_exists read sha256 e
                  ≡ err error)
                × IsCause e error)
      by_hash contents got there =
          elim (Bool-cases (bytes_eq (sha256 contents) e.expected_sha256)) [
            | inl equal ↦ inl (
              rw (there, got, equal) refl,
              (there, contents, got, (bytes_eq_iff (sha256 contents) e.expected_sha256).0 equal),
            )
            | inr differs ↦ inr (
              checksum_mismatch e.name e.expected_sha256 (sha256 contents),
              rw (there, got, differs) refl,
              (refl, refl, there, contents, got, refl, differs),
            )
          ]

      by_read :
          (r : Result I (List ℕ))
          → read e.path ≡ r
          → path_exists e.path ≡ true
          → ((validate_single_program path_exists read sha256 e ≡ ok tt) × IsIntact e)
            ⊎ ((error : IntegrityError I) × (validate_single_program path_exists read sha256 e
                  ≡ err error)
                × IsCause e error)
      by_read (ok contents) got there = by_hash contents got there
      by_read (err error) got there =
          inr (io_error e.name error, rw (there, got) refl, (refl, there, got))

  loop-Validated :
      (programs : List ProgramEntry)
      → Validated programs (validate_loop path_exists read sha256 programs)
  unfolding validate_loop Single
  loop-Validated [] = refl
  loop-Validated (e ∷ programs) = elim (validate_single_program_cases e) [
    | inl (passes, intact) ↦ inl (intact, rw (passes) (loop-Validated programs))
    | inr (error, fails, cause) ↦ inr (error, rw (fails) refl, cause)
  ]

  -- The validation succeeds if the file of every program is there, can be read and has the expected
  -- hash; otherwise its error names the first program of which this fails, and why, and all programs
  -- before it are intact.
  pub validate_program_integrity-Validated :
      (manifest : ProgramManifest)
      → Validated manifest.programs (validate_program_integrity path_exists read sha256 manifest)
  unfolding validate_program_integrity
  validate_program_integrity-Validated manifest = loop-Validated manifest.programs
