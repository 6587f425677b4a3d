-- ===== src/Format/Deduce.antt =====
-- internal/format/format.go: the format and compression that a name stands for.
use dtreesync.Base.{Text, ℕ, Bool, true, false, ◌||◌, ◌==◌, nat_eq, text_eq, if◌then◌else◌}
use dtreesync.Base.Strings.{codes, has_suffix, trim_suffix, to_lower, before}
use dtreesync.Model.Types.{
  FormatType, no_format, CompressionType, no_compression, zstd, none_compression,
}

-- `strings.IndexAny(lower, "?#")` and the cut.
abbrev pub is_query : ℕ → Bool
is_query c = c == b'?' || c == b'#'

abbrev pub name_part : Text → Text
name_part path = before is_query (to_lower path)

abbrev pub is_compressed : Text → Bool
is_compressed name = has_suffix (codes ".zst") name || has_suffix (codes ".zstd") name

abbrev pub stem : Text → Text
stem name =
    if is_compressed name
    then trim_suffix (codes ".zstd") (trim_suffix (codes ".zst") name)
    else name

unfoldable pub deduce_format_and_compression : Text → FormatType × CompressionType
unfolding has_suffix trim_suffix before
deduce_format_and_compression path_or_url =
    let lower = name_part path_or_url in
    let comp = if is_compressed lower then zstd else none_compression in
    let name = stem lower in
    if has_suffix (codes ".tsv") name
    then (FormatType.tsv, comp)
    else if has_suffix (codes ".jsonl") name || has_suffix (codes ".ndjson") name
    then (FormatType.ndjson, comp)
    else if has_suffix (codes ".db") name
        || has_suffix (codes ".sqlite") name
        || has_suffix (codes ".sqlite3") name
    then (FormatType.sqlite, none_compression)
    else (FormatType.ndjson, zstd)

-- What is given goes before what the name shows.
abbrev pub or_deduced_format : FormatType → FormatType → FormatType
or_deduced_format no_format deduced = deduced
or_deduced_format fmt deduced = fmt

abbrev pub or_deduced_compression : CompressionType → CompressionType → CompressionType
or_deduced_compression no_compression deduced = deduced
or_deduced_compression comp deduced = comp

abbrev pub is_sqlite : FormatType → Bool
is_sqlite FormatType.sqlite = true
is_sqlite _ = false
