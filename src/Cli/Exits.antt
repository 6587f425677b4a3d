-- ===== src/Cli/Exits.antt =====
-- cmd/dtreesync/main.go: what the exit codes say of the trees and snapshots that the engines saw.
use dtreesync.Base.{
  Text, Bool, true, false, not, ◌||◌, Option, none, some, List, [], ◌≡◌, refl, ◌⊎◌, inl, inr, ◌↔◌,
  ◌==◌, text_eq, ltb, if◌then◌else◌, arith,
}
use dtreesync.Model.Types.{
  IdentityMap, DirRecord, DiffConfig, DiffResult, Error, drift_detected, Result, ok, VerifyConfig,
  VerifyResult, FormatType, verification_failed,
}
use dtreesync.Model.Path.{validate_and_clean_path}
use dtreesync.Core.Diff.{record_map, translate_all, tally, report, diff}
use dtreesync.Model.Filter.{new_record_filter}
use dtreesync.Core.Diff.Aligned.{IsAligned, diff-IsAligned}
use dtreesync.Cli.{exit_success, SourceFlags, source_dest}
use dtreesync.Cli.Runs.{
  go, exit_code, World, identity_map, stream_reader, init_audit_logger, diff_config, diff_exit,
  run_diff, all_valid, verify_config, verify_exit, run_verify,
}
use dtreesync.Core.Library.{Library}
use dtreesync.Core.Source.{Store, is_compressed}
use dtreesync.Format.Deduce.{is_sqlite}
use dtreesync.Core.Verify.Sound.{IsAccepted, verify-IsAccepted}
use dtreesync.Core.Verify.{
  Tools, flagged, verdict_of, reconcile, Stream, Opening, unreadable, invalid, payload,
  open_payload, judge_line, detect_format, verify_opened, verify_stream, verify_unpacked, unpacked,
  verify_input, open_input, chosen_format, chosen_compression, verify, fresh_result,
}

diff-shape :
    (cfg : DiffConfig) (folder : Text) (snap live : List DirRecord) (files : List Text)
    → validate_and_clean_path cfg.live_folder ≡ ok folder
    → (r : DiffResult) × (diff cfg (ok snap) (ok (live, files))
        ≡ ok (r, if ltb 0 r.total_drift then some drift_detected else none))
unfolding diff report
diff-shape cfg folder snap live files h =
    let filter = new_record_filter cfg.entities cfg.include cfg.exclude in
    let expected = record_map filter (translate_all cfg.identity_map snap) [] in
    let actual = record_map filter live [] in
    (report cfg folder expected actual (tally cfg.ignore_owner expected actual files), rw h refl)

exit_none :
    (r : DiffResult) (b : Bool)
    → ltb 0 r.total_drift ≡ b
    → (exit_code (diff_exit (r, if b then some drift_detected else none)) ≡ exit_success) ↔ (
        (q : DiffResult) × (◌≡◌ {A = Result (DiffResult × Option Error)}
          (ok (r, if b then some drift_detected else none))
          (ok (q, none))))
exit_none r true e = rw e ((λ h. absurd (omega arith)), λ (q, h). absurd (cc h))
exit_none r false e = rw e ((λ _. (r, refl)), λ _. refl)

-- With flags that name a folder and a snapshot, and where the identity map, the snapshot and the audit
-- log can be opened and the diff is that of the snapshot with a scan of a valid folder: the subcommand
-- diff exits with 0 exactly when the snapshot and the live tree are aligned: each expected directory is
-- live with metadata that agree, each live one but the root is expected, and there is no payload file.
-- Metadata agree by mode, user name, owner SID, security descriptor and access ACL, each only where both
-- sides have it, user and SID only if owners count. Group, UID, GID, default ACL and times play no part.
pub run_diff-IsAligned :
    (world : World) (engine : DiffConfig → Option Text → Result (DiffResult × Option Error))
    (f : SourceFlags) (ignore_owner : Bool) (ids : Option IdentityMap) (reader : Option Text)
    (folder : Text) (snap live : List DirRecord) (files : List Text)
    → (f.base_folder == [] || source_dest f == []) ≡ false
    → identity_map world f ≡ go ids
    → stream_reader world f ≡ go reader
    → init_audit_logger world f ≡ true
    → validate_and_clean_path f.base_folder ≡ ok folder
    → engine (diff_config f ignore_owner ids) reader
      ≡ diff (diff_config f ignore_owner ids) (ok snap) (ok (live, files))
    → (run_diff world engine (some (f, ignore_owner)) ≡ exit_success)
      ↔ IsAligned (diff_config f ignore_owner ids) snap live files
unfolding run_diff
run_diff-IsAligned world engine f ignore_owner ids reader folder snap live files h i s l v e =
    let cfg = diff_config f ignore_owner ids in
    let (r, shape) = diff-shape cfg folder snap live files v in
    let aligned = diff-IsAligned cfg folder snap live files v in
    let exits = exit_none r (ltb 0 r.total_drift) refl in
    rw (h, i, s, l, e, shape)
      (λ k. aligned.0 (rw shape (exits.0 k)), λ k. exits.1 (rw shape at (aligned.1 k)))

-- The flags of a result tell of the error that comes with it.
abbrev Tells : VerifyResult × Option Error → Type 0
Tells (r, e) =
    ((all_valid r ≡ true) × (e ≡ none)) ⊎ ((all_valid r ≡ false) × (e ≡ some verification_failed))

flagged-Tells :
    (r : VerifyResult) (failed : Bool) → not (all_valid r) ≡ failed → Tells (flagged failed r)
flagged-Tells r true h = inr (ground arith, refl)
flagged-Tells r false h = inl (ground arith, refl)

verdict_of-Tells : (r : VerifyResult) → Tells (verdict_of r)
verdict_of-Tells r = flagged-Tells r _ (ground arith)

verify_unpacked-Tells :
    (lib : Library) (tools : Tools) (fmt : FormatType) (found : Option Stream) (r : VerifyResult)
    → Tells (verify_unpacked lib tools fmt found r)
unfolding verify_unpacked verify_stream verify_opened reconcile
verify_unpacked-Tells lib tools fmt none r = inr (ground arith, refl)
verify_unpacked-Tells lib tools fmt (some s) r =
    opened_Tells (open_payload lib (detect_format fmt s.text) s.text)
  where
    opened_Tells :
        (o : Opening)
        → Tells (
            verify_opened lib tools
              (judge_line lib (detect_format fmt s.text))
              s.broken
              o
              (record r { format = detect_format fmt s.text }))
    opened_Tells unreadable = inr (ground arith, refl)
    opened_Tells invalid = inr (ground arith, refl)
    opened_Tells (payload meta text) = verdict_of-Tells _

exit_valid :
    (x : VerifyResult × Option Error)
    → Tells x
    → (exit_code (verify_exit x) ≡ exit_success) ↔ (x.1 ≡ none)
exit_valid (r, e) (inl (v, n)) = rw (v, n) ((λ _. refl), λ _. refl)
exit_valid (r, e) (inr (v, n)) = rw (v, n) ((λ h. absurd (omega arith)), λ h. absurd (cc h))

verify-Tells :
    (lib : Library) (tools : Tools) (store : Store) (cfg : VerifyConfig) (input : Text)
    → is_sqlite (chosen_format cfg) ≡ false
    → open_input store cfg.reader cfg.source_url ≡ ok input
    → (x : VerifyResult × Option Error) × (verify lib tools store cfg ≡ ok x) × Tells x
unfolding verify verify_input
verify-Tells lib tools store cfg input h o =
    let start = record (fresh_result cfg.source_url (chosen_format cfg) (chosen_compression cfg)) {
      compression = is_compressed (chosen_compression cfg) input;
    } in
    let found = unpacked tools (chosen_compression cfg) input in
    (
      verify_unpacked lib tools (chosen_format cfg) found start,
      rw (h, o) refl,
      verify_unpacked-Tells lib tools (chosen_format cfg) found start,
    )

none_iff :
    (x : VerifyResult × Option Error)
    → (x.1 ≡ none) ↔ (
        (r : VerifyResult) × (◌≡◌ {A = Result (VerifyResult × Option Error)} (ok x) (ok (r, none))))
none_iff (r, e) = ((λ h. (r, rw h refl)), λ (q, h). cc h)

-- With flags that name a snapshot which is no database, and where it and the audit log can be opened: the
-- subcommand verify exits with 0 exactly when the snapshot starts with a header, ends without an error, has
-- the digest of the header, if it has one, and no line of it has something wrong. The number of
-- directories in the header and the ACL texts play no part.
pub run_verify-IsAccepted :
    (world : World) (lib : Library) (tools : Tools) (store : Store) (f : SourceFlags)
    (reader : Option Text) (input : Text)
    → (source_dest f == []) ≡ false
    → stream_reader world f ≡ go reader
    → init_audit_logger world f ≡ true
    → is_sqlite (chosen_format (verify_config f reader)) ≡ false
    → open_input store reader (source_dest f) ≡ ok input
    → (run_verify world (verify lib tools store) (some f) ≡ exit_success)
      ↔ IsAccepted lib
          (chosen_format (verify_config f reader))
          (unpacked tools (chosen_compression (verify_config f reader)) input)
unfolding run_verify
run_verify-IsAccepted world lib tools store f reader input h s l q o =
    let cfg = verify_config f reader in
    let (x, shape, tells) = verify-Tells lib tools store cfg input q o in
    let accepted = verify-IsAccepted lib tools store cfg input q o in
    let exits = exit_valid x tells in
    let plain = none_iff x in
    rw (h, s, l, shape)
      (
        λ k. accepted.0 (rw shape (plain.0 (exits.0 k))),
        λ k. exits.1 (plain.1 (rw shape at (accepted.1 k))),
      )
