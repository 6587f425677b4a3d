-- ===== src/Core/Verify/Line.antt =====
-- internal/core/verify.go: the first line of a stream, the lines before the data rows, and what each line
-- of the payload comes to.
use dtreesync.Base.{
  Text, ℕ, suc, Bool, true, false, ◌||◌, Option, none, some, List, [], ◌∷◌, ◌==◌, text_eq, nat_eq,
  ltb, leb, length, if◌then◌else◌,
}
use dtreesync.Base.Strings.{codes, split, has_prefix, trim_space, byte_length}
use dtreesync.Format.Lines.{max_line, drop_cr}
use dtreesync.Format.Tsv.{tsv_null_value, read_tsv_header}
use dtreesync.Format.Ndjson.{read_ndjson_header}
use dtreesync.Model.Types.{
  BackupMetadata, DirRecord, FormatType, Issue, short_row, bad_record, bad_path, Result, ok, err,
}
use dtreesync.Model.Path.{normalize_rel_path}
use dtreesync.Core.Library.{Library}

-- `ReadString('\n')`: the line with its newline, and what follows.
abbrev extend : ℕ → Option (Text × Text) → Option (Text × Text)
extend c none = none
extend c (some (line, rest)) = some (c ∷ line, rest)

unfoldable pub cut_line : Text → Option (Text × Text)
cut_line [] = none
cut_line (c ∷ s) =
    let longer = extend c (cut_line s) in if c == b'\n' then some (codes "\n", s) else longer

-- The loop over the lines before the data rows. The first argument is whether a line starts here.
unfoldable pub skip_preamble : Bool → Text → Text
unfolding has_prefix
skip_preamble starts [] = []
skip_preamble false (c ∷ s) = skip_preamble (c == b'\n') s
skip_preamble true (c ∷ s) =
    let skipped = skip_preamble false s in
    if has_prefix (codes "#") (c ∷ s) || has_prefix (codes "entity\t") (c ∷ s)
    then skipped
    else c ∷ s

-- What a line of the payload comes to: it is passed over, it is not counted, it is counted, or it is
-- counted with an issue.
pub data Verdict : Type 0 where
  skipped counted : Verdict
  rejected flawed : Issue → Verdict

-- `NormalizeRelPath` gives the path itself.
abbrev pub is_same : Text → Result Text → Bool
is_same p (ok norm) = norm == p
is_same p (err _) = false

unfoldable pub judge_path : Text → Verdict
unfolding normalize_rel_path
judge_path p = if is_same p (normalize_rel_path p) then counted else flawed bad_path

unfoldable pub judge_row : List Text → Verdict
unfolding judge_path
judge_row (entity ∷ path ∷ cols) =
    if ltb (length cols) 11
    then rejected short_row
    else if path == tsv_null_value || path == []
    then counted
    else judge_path path
judge_row _ = rejected short_row

unfoldable pub judge_tsv : Text → Verdict
unfolding trim_space has_prefix split judge_row
judge_tsv line =
    let trimmed = trim_space line in
    if trimmed == [] || has_prefix (codes "#") trimmed
    then skipped
    else judge_row (split b'\t' trimmed)

unfoldable pub judge_record : Option DirRecord → Verdict
unfolding judge_path
judge_record none = flawed bad_record
judge_record (some rec) = if rec.rel_path == [] then counted else judge_path rec.rel_path

unfoldable pub judge_ndjson : (Text → Option DirRecord) → Text → Verdict
unfolding judge_record drop_cr
judge_ndjson decode raw = if drop_cr raw == [] then skipped else judge_record (decode (drop_cr raw))

pub record Tally : Type 0 where
  pub count : ℕ
  pub issues : List Issue
  -- The line reader gave up.
  pub gave_up : Bool

unfoldable pub count_verdict : Verdict → Tally → Tally
count_verdict skipped t = t
count_verdict counted t = record t { count = suc t.count }
count_verdict (rejected i) t = record t { issues = i ∷ t.issues }
count_verdict (flawed i) t = record t { count = suc t.count; issues = i ∷ t.issues }

-- The loop over the lines of the payload.
unfoldable pub inspect : (Text → Verdict) → List Text → Tally
unfolding count_verdict
inspect judge [] = record { count = 0; issues = []; gave_up = false }
inspect judge (line ∷ lines) =
    let rest = inspect judge lines in
    if leb max_line (byte_length line)
    then record { count = 0; issues = []; gave_up = true }
    else count_verdict (judge line) rest

-- What the first line and the lines before the data come to.
pub data Opening : Type 0 where
  unreadable invalid : Opening
  payload : BackupMetadata → Text → Opening

abbrev with_header : Result BackupMetadata → Text → Opening
with_header (err _) rest = invalid
with_header (ok meta) rest = payload meta rest

abbrev tsv_opening : Library → Option (Text × Text) → Opening
tsv_opening lib none = unreadable
tsv_opening lib (some (line, rest)) =
    with_header (read_tsv_header lib.decode_meta line) (skip_preamble true rest)

abbrev ndjson_opening : Library → Option (Text × Text) → Opening
ndjson_opening lib none = unreadable
ndjson_opening lib (some (line, rest)) =
    with_header (read_ndjson_header lib.decode_header line) rest

unfoldable pub open_payload : Library → FormatType → Text → Opening
unfolding cut_line read_tsv_header read_ndjson_header skip_preamble
open_payload lib FormatType.tsv text = tsv_opening lib (cut_line text)
open_payload lib _ text = ndjson_opening lib (cut_line text)

unfoldable pub judge_line : Library → FormatType → Text → Verdict
unfolding judge_tsv judge_ndjson
judge_line lib FormatType.tsv line = judge_tsv line
judge_line lib _ line = judge_ndjson lib.decode_record line
