-- ===== src/Executor/Integrity.antt =====
-- crates/tlapix-executor/src/integrity.rs: the programs of the kernel are checked by their SHA-256 before
-- they are loaded. The file system, as it is during the check, and the hash are parameters; a path is
-- its text, and log lines are left out.
pub mod Validated
mod Tests
use tlapix.Common.{
  ℕ, Bool, true, false, not, List, [], ◌∷◌, if◌then◌else◌, bytes_eq, Result, ok, err,
}
use tlapix.Common.Attempt.{◌>>=◌, ◌>>◌, guard_not}
use tlapix.Common.Text.{Text}

pub record ProgramEntry : Type 0 where
  pub name : Text
  pub path : Text
  pub expected_sha256 : List ℕ

pub record ProgramManifest : Type 0 where
  pub programs : List ProgramEntry

-- `I` is the error of the operating system.
pub data IntegrityError (I : Type 0) : Type 0 where
  checksum_mismatch : Text → List ℕ → List ℕ → IntegrityError I
  file_not_found : Text → Text → IntegrityError I
  io_error : Text → I → IntegrityError I

abbrev pub map_err :
    {I A : Type 0} → (I → IntegrityError I) → Result I A → Result (IntegrityError I) A
map_err f (ok a) = ok a
map_err f (err e) = err (f e)

module _ {I : Type 0} (path_exists : Text → Bool) (read : Text → Result I (List ℕ))
    (sha256 : List ℕ → List ℕ) where
  unfoldable pub validate_single_program : ProgramEntry → Result (IntegrityError I) (Unit {0})
  unfolding bytes_eq
  validate_single_program entry = do
    guard_not (not (path_exists entry.path)) (file_not_found entry.name entry.path)
    contents ← map_err (io_error entry.name) (read entry.path)
    guard_not (not (bytes_eq (sha256 contents) entry.expected_sha256))
        (checksum_mismatch entry.name entry.expected_sha256 (sha256 contents))

  unfoldable pub validate_loop : List ProgramEntry → Result (IntegrityError I) (Unit {0})
  unfolding validate_single_program
  validate_loop [] = ok tt
  validate_loop (entry ∷ programs) = do validate_single_program entry; validate_loop programs

  unfoldable pub validate_program_integrity : ProgramManifest → Result (IntegrityError I) (Unit {0})
  unfolding validate_loop
  validate_program_integrity manifest = validate_loop manifest.programs
