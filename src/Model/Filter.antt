-- ===== src/Model/Filter.antt =====
-- internal/model/path.go, `RecordFilter`.
use dtreesync.Base.{
  Text, Bool, true, false, not, ◌&&◌, List, [], ◌==◌, text_eq, nat_eq, any, ltb, length,
  if◌then◌else◌,
}
use dtreesync.Model.Types.{DirRecord}
use dtreesync.Model.Glob.{match_glob}

pub record RecordFilter : Type 0 where
  pub entities : List Text
  pub include : List Text
  pub exclude : List Text

abbrev pub new_record_filter : List Text → List Text → List Text → RecordFilter
new_record_filter entities include exclude = record {
  entities = entities;
  include = include;
  exclude = exclude;
}

abbrev pub matches_any : List Text → Text → Bool
matches_any patterns rel_path = any (λ pattern. match_glob pattern rel_path) patterns

unfoldable pub matches : RecordFilter → DirRecord → Bool
unfolding match_glob
matches f rec =
    if ltb 0 (length f.entities)
      && not (rec.rel_path == [])
      && not (any (λ e. rec.entity == e) f.entities)
    then false
    else if ltb 0 (length f.include)
        && not (rec.rel_path == [])
        && not (matches_any f.include rec.rel_path)
    then false
    else if ltb 0 (length f.exclude) && matches_any f.exclude rec.rel_path
    then false
    else true
