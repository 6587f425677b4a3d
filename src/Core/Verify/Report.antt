-- ===== src/Core/Verify/Report.antt =====
-- internal/core/verify.go: how the findings decide on the result, and `verifySQLite`.
use dtreesync.Base.{
  Text, ℕ, Bool, true, false, not, ◌||◌, ◌&&◌, Option, none, some, List, [], ◌∷◌, ◌++◌, ◌==◌,
  text_eq, nat_eq, ltb, length, if◌then◌else◌,
}
use dtreesync.Base.Int.{ℤ, pos, negsuc}
use dtreesync.Base.Strings.{to_lower}
use dtreesync.Model.Types.{
  Error, BackupMetadata, VerifyResult, Issue, header_invalid, stream_failed, checksum_mismatch,
  count_mismatch, database_unreadable, integrity_failed, Result, ok, err, verification_failed,
}
use dtreesync.Core.Library.{Library}
use dtreesync.Core.Verify.Line.{Tally}

-- What a reader yields, and whether it ends with an error.
pub record Stream : Type 0 where
  pub text : Text
  pub broken : Bool

-- The answers of the driver about a database.
pub record Database : Type 0 where
  -- `ReadSQLiteHeader`
  pub header : Result BackupMetadata
  -- `sql.Open`
  pub opens : Bool
  -- `PRAGMA integrity_check` says "ok".
  pub is_intact : Bool
  -- `SELECT COUNT(*)`, or 0 if it fails.
  pub count : ℕ

pub record Tools : Type 0 where
  -- `NewZstdReader`, and what its reader yields.
  pub open_zstd : Text → Option Stream
  -- What the line reader has taken from a stream when it gives up on a line that is too long.
  pub taken : Text → Text
  pub database : Text → Database

abbrev pub issue_if : Bool → Issue → List Issue
issue_if test i = if test then i ∷ [] else []

-- The header's count is positive and another one.
abbrev pub miscounted : ℤ → ℕ → Bool
miscounted (pos n) count = ltb 0 n && not (n == count)
miscounted (negsuc n) count = false

-- The header has no digest, or this one.
unfoldable pub matches_digest : Text → Text → Bool
matches_digest expected digest = expected == [] || to_lower digest == to_lower expected

-- The end of `Verify`: the flags decide on the error.
abbrev pub flagged : Bool → VerifyResult → VerifyResult × Option Error
flagged failed r = if failed then (r, some verification_failed) else (r, none)

abbrev pub verdict_of : VerifyResult → VerifyResult × Option Error
verdict_of r = flagged (not r.checksum_valid || not r.frames_valid || not r.syntax_valid) r

-- The issues are listed in the order of the lines.
unfoldable pub reconcile :
    Library
    → Tools
    → BackupMetadata
    → Text
    → Bool
    → Tally
    → VerifyResult
    → VerifyResult × Option Error
unfolding matches_digest
reconcile lib tools meta text broken t r =
    let syntax = t.issues ++ issue_if (t.gave_up || broken) stream_failed in
    let digest = lib.sha256 (if t.gave_up then tools.taken text else text) in
    let matching = matches_digest meta.payload_sha256 digest in
    verdict_of (record r {
      payload_sha256 = digest;
      record_count = t.count;
      syntax_valid = r.syntax_valid && length syntax == 0;
      expected_sha256 = meta.payload_sha256;
      checksum_valid = matching;
      errors =
          r.errors
          ++ (syntax
              ++ (issue_if (not matching) checksum_mismatch
                  ++ issue_if (miscounted meta.folder_count t.count) count_mismatch));
    })

-- `verifySQLite`, once the header is read and the database open. A check that fails clears
-- `frames_valid`, but only the count decides on the error.
unfoldable pub verify_rows : BackupMetadata → Database → VerifyResult → VerifyResult × Option Error
verify_rows meta db r =
    let counted = record r {
      frames_valid = db.is_intact;
      record_count = db.count;
      syntax_valid = true;
      checksum_valid = true;
      expected_sha256 = meta.payload_sha256;
      errors = r.errors ++ issue_if (not db.is_intact) integrity_failed;
    } in
    if miscounted meta.folder_count db.count
    then (
      record counted { errors = counted.errors ++ (count_mismatch ∷ []) },
      some verification_failed,
    )
    else (counted, none)

unfoldable pub verify_database :
    Result BackupMetadata → Database → VerifyResult → VerifyResult × Option Error
unfolding verify_rows
verify_database (err _) db r = (
  record r { syntax_valid = false; errors = r.errors ++ (header_invalid ∷ []) },
  some verification_failed,
)
verify_database (ok meta) db r = if db.opens then verify_rows meta db r else (
  record r { frames_valid = false; errors = r.errors ++ (database_unreadable ∷ []) },
  some verification_failed,
)
