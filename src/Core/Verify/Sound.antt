-- ===== src/Core/Verify/Sound.antt =====
-- internal/core/verify.go: what a stream has that is verified without an error.
use mathlib.Core.Path.{subst}
use dtreesync.Base.{
  Text, ◌<◌, Bool, true, false, not, ◌||◌, ◌&&◌, Option, none, some, List, [], ◌∷◌, ◌++◌, ◌≡◌, refl,
  sym, ap, ◌∙◌, ◌↔◌, ◌⊎◌, inl, inr, ◌==◌, text_eq, nat_eq, ==_iff, leb, length, All, Bool-cases,
  arith, if◌then◌else◌,
}
use dtreesync.Base.Strings.{to_lower, byte_length}
use dtreesync.Format.Lines.{max_line, scan_lines}
use dtreesync.Model.Types.{
  Error, BackupMetadata, FormatType, VerifyConfig, VerifyResult, Issue, stream_failed, Result, ok,
  err,
}
use dtreesync.Core.Library.{Library}
use dtreesync.Core.Source.{Store, is_compressed}
use dtreesync.Core.Verify.{
  Stream, Tools, Verdict, skipped, counted, rejected, flawed, Tally, count_verdict, inspect,
  Opening, unreadable, invalid, payload, open_payload, judge_line, issue_if, matches_digest,
  flagged, reconcile, verify_opened, detect_format, verify_stream, verify_unpacked, verify_input,
  open_input, fresh_result, verify, chosen_format, chosen_compression, unpacked, Database,
  verify_database, verify_rows, miscounted,
}
use dtreesync.Format.Deduce.{is_sqlite}

-- The line fits the reader, and there is nothing to say against it.
abbrev pub IsSound : (Text → Verdict) → Text → Type 0
IsSound judge line =
    (byte_length line < max_line) × ((judge line ≡ skipped) ⊎ (judge line ≡ counted))

abbrev pub IsClear : Tally → Type 0
IsClear t = (t.issues ≡ []) × (t.gave_up ≡ false)

count_verdict-IsClear :
    (v : Verdict) (t : Tally)
    → IsClear (count_verdict v t) ↔ (((v ≡ skipped) ⊎ (v ≡ counted)) × IsClear t)
unfolding count_verdict
count_verdict-IsClear skipped t = ((λ h. (inl refl, h)), λ (_, h). h)
count_verdict-IsClear counted t = ((λ h. (inr refl, h)), λ (_, h). h)
count_verdict-IsClear (rejected i) t = ((λ (h, _). absurd (cc h)), λ (k, _). absurd (ground arith))
count_verdict-IsClear (flawed i) t = ((λ (h, _). absurd (cc h)), λ (k, _). absurd (ground arith))

pub inspect-IsClear :
    (judge : Text → Verdict) (lines : List Text)
    → IsClear (inspect judge lines) ↔ All (IsSound judge) lines
unfolding inspect
inspect-IsClear judge [] = ((λ _. tt), λ _. (refl, refl))
inspect-IsClear judge (line ∷ lines) =
    let rest = inspect-IsClear judge lines in
    let here = count_verdict-IsClear (judge line) (inspect judge lines) in
    elim (Bool-cases (leb max_line (byte_length line))) [
      | inl e ↦ rw e ((λ (_, h). absurd (cc h)), λ ((h, _), _). absurd (ground arith))
      | inr e ↦ rw e (
        (λ h. let (v, k) = here.0 h in ((ground arith, v), rest.0 k)),
        λ ((_, v), hs). here.1 (v, rest.1 hs),
      )
    ]

-- The digest of the header is empty, or that of the payload in either case of its letters.
abbrev pub IsDigest : Text → Text → Type 0
IsDigest expected digest = (expected ≡ []) ⊎ (to_lower digest ≡ to_lower expected)

pub matches_digest_iff :
    (expected digest : Text) → (matches_digest expected digest ≡ true) ↔ IsDigest expected digest
unfolding matches_digest
matches_digest_iff expected digest = elim (Bool-cases (expected == [])) [
  | inl e ↦ rw e ((λ _. inl ((==_iff expected []).0 e)), λ _. refl)
  | inr e ↦ rw e (
    (λ h. inr ((==_iff (to_lower digest) (to_lower expected)).0 h)),
    λ d. elim d [
      | inl k ↦ absurd (cc ((==_iff expected []).1 k, e))
      | inr k ↦ (==_iff (to_lower digest) (to_lower expected)).1 k
    ],
  )
]

-- A snapshot as `Verify` accepts it: the first line is a header, the rest ends without an error, has
-- the digest of the header, and nothing is wrong with a line of it.
pub record IsIntact (lib : Library) (fmt : FormatType) (s : Stream) : Type 0 where
  pub meta : BackupMetadata
  pub rows : Text
  pub opens : open_payload lib fmt s.text ≡ payload meta rows
  pub whole : s.broken ≡ false
  pub digest : IsDigest meta.payload_sha256 (lib.sha256 rows)
  pub sound : All (IsSound (judge_line lib fmt)) (scan_lines rows)

-- The flags have not been cleared.
abbrev IsFresh : VerifyResult → Type 0
IsFresh r = (r.frames_valid ≡ true) × (r.syntax_valid ≡ true)

flags_iff :
    (c f y : Bool) (r : VerifyResult)
    → ((flagged (not c || not f || not y) r).1 ≡ none) ↔ ((c ≡ true) × (f ≡ true) × (y ≡ true))
flags_iff c f y r = ground arith

no_issues :
    (is_ok : Bool) (issues : List Issue) (gave_up broken : Bool)
    → is_ok ≡ true
    → ((is_ok && length (issues ++ issue_if (gave_up || broken) stream_failed) == 0) ≡ true)
      ↔ ((issues ≡ []) × (gave_up ≡ false) × (broken ≡ false))
unfolding nat_eq
no_issues is_ok [] gave_up broken h = ground arith
no_issues is_ok (i ∷ issues) gave_up broken h =
    rw h ((λ k. absurd (ground arith)), λ (k, _, _). absurd (cc k))

reconcile_iff :
    (lib : Library) (tools : Tools) (meta : BackupMetadata) (text : Text) (broken : Bool)
    (t : Tally) (r : VerifyResult)
    → IsFresh r
    → ((reconcile lib tools meta text broken t r).1 ≡ none)
      ↔ (IsClear t × (broken ≡ false) × IsDigest meta.payload_sha256 (lib.sha256 text))
unfolding reconcile
reconcile_iff lib tools meta text broken t r (frames, syntax) =
    let quiet = no_issues r.syntax_valid t.issues t.gave_up broken syntax in
    let digest = matches_digest_iff meta.payload_sha256 (lib.sha256 text) in
    let same = λ (e : t.gave_up ≡ false).
      ap
        (λ (b : Bool).
          matches_digest meta.payload_sha256 (lib.sha256 (if b then tools.taken text else text)))
        e in
    (
      (λ h.
          let (c, _, y) = (flags_iff _ _ _ _).0 h in
          let (none_found, on, whole) = quiet.0 y in
          ((none_found, on), whole, digest.0 (sym (same on) ∙ c))),
      λ ((none_found, on), whole, d).
          (flags_iff _ _ _ _).1 (same on ∙ digest.1 d, frames, quiet.1 (none_found, on, whole)),
    )

module _ (lib : Library) (tools : Tools) (fmt : FormatType) (s : Stream) (r : VerifyResult)
    (fresh : IsFresh r) where
  opened_iff :
      (o : Opening)
      → open_payload lib fmt s.text ≡ o
      → ((verify_opened lib tools (judge_line lib fmt) s.broken o r).1 ≡ none) ↔ IsIntact lib fmt s
  unfolding verify_opened
  opened_iff unreadable e = ((λ h. absurd (cc h)), λ k. absurd (ground (arith, e, k.opens)))
  opened_iff invalid e = ((λ h. absurd (cc h)), λ k. absurd (ground (arith, e, k.opens)))
  opened_iff (payload meta rows) e =
      let q =
        reconcile_iff lib tools meta rows s.broken (inspect (judge_line lib fmt) (scan_lines rows))
          r fresh in
      let lines = inspect-IsClear (judge_line lib fmt) (scan_lines rows) in
      (
        (λ h.
            let (clear, whole, d) = q.0 h in
            record {
              meta = meta;
              rows = rows;
              opens = e;
              whole = whole;
              digest = d;
              sound = lines.0 clear;
            }),
        λ k.
            let same_meta : k.meta ≡ meta = cc (e, k.opens) in
            let same_rows : k.rows ≡ rows = cc (e, k.opens) in
            q.1
              (lines.1 (rw same_rows at k.sound), k.whole, (rw (same_meta, same_rows) at k.digest)),
      )

verify_stream_iff :
    (lib : Library) (tools : Tools) (fmt : FormatType) (s : Stream) (r : VerifyResult)
    → IsFresh r
    → ((verify_stream lib tools fmt s r).1 ≡ none) ↔ IsIntact lib (detect_format fmt s.text) s
unfolding verify_stream
verify_stream_iff lib tools fmt s r fresh =
    let found = detect_format fmt s.text in
    opened_iff lib tools found s (record r { format = found }) fresh (open_payload lib found s.text)
      refl

-- What was opened, and is a snapshot as `Verify` accepts it.
abbrev pub IsAccepted : Library → FormatType → Option Stream → Type 0
IsAccepted lib fmt found =
    (s : Stream) × (found ≡ some s) × IsIntact lib (detect_format fmt s.text) s

verify_unpacked_iff :
    (lib : Library) (tools : Tools) (fmt : FormatType) (found : Option Stream) (r : VerifyResult)
    → IsFresh r
    → ((verify_unpacked lib tools fmt found r).1 ≡ none) ↔ IsAccepted lib fmt found
unfolding verify_unpacked
verify_unpacked_iff lib tools fmt none r fresh = ((λ h. absurd (cc h)), λ (s, e, _). absurd (cc e))
verify_unpacked_iff lib tools fmt (some s) r fresh =
    let q = verify_stream_iff lib tools fmt s r fresh in
    (
      (λ h. (s, refl, q.0 h)),
      λ (s', e, k).
          let same : s' ≡ s = cc e in
          q.1 (subst (λ x. IsIntact lib (detect_format fmt x.text) x) same k),
    )

no_error :
    (x : VerifyResult × Option Error) → ((r : VerifyResult) × (ok x ≡ ok (r, none))) ↔ (x.1 ≡ none)
no_error (r, e) = ((λ (r', h). cc h), λ h. (r, rw h refl))

-- A run on a snapshot that is no database and can be opened returns no error exactly when the stream
-- behind the compression starts with a header, ends without an error, has the digest of the header, if
-- it has one, and no line of it is too long or has something wrong: a row with too few columns, a
-- record that cannot be decoded, or a path that is not in normal form. Whether the number of records is that
-- of the header, and whether an ACL is hexadecimal, makes no difference to the error.
pub verify-IsAccepted :
    (lib : Library) (tools : Tools) (store : Store) (cfg : VerifyConfig) (input : Text)
    → is_sqlite (chosen_format cfg) ≡ false
    → open_input store cfg.reader cfg.source_url ≡ ok input
    → ((r : VerifyResult) × (verify lib tools store cfg ≡ ok (r, none)))
      ↔ IsAccepted lib (chosen_format cfg) (unpacked tools (chosen_compression cfg) input)
unfolding verify verify_input
verify-IsAccepted lib tools store cfg input h opens =
    let q =
      verify_unpacked_iff lib tools (chosen_format cfg)
        (unpacked tools (chosen_compression cfg) input)
        (record (fresh_result cfg.source_url (chosen_format cfg) (chosen_compression cfg)) {
          compression = is_compressed (chosen_compression cfg) input;
        })
        (refl, refl) in
    let out = no_error _ in rw (h, opens) ((λ k. q.0 (out.0 k)), λ k. out.1 (q.1 k))

-- A database is verified without an error exactly when its header can be read, it can be opened, and
-- it has as many directories as the header says, if that says a positive number. What the integrity
-- check answers makes no difference.
pub verify_database_iff :
    (header : Result BackupMetadata) (db : Database) (r : VerifyResult)
    → ((verify_database header db r).1 ≡ none) ↔ (
        (meta : BackupMetadata) × (header ≡ ok meta)
        × (db.opens ≡ true)
        × (miscounted meta.folder_count db.count ≡ false))
unfolding verify_database verify_rows
verify_database_iff (err e) db r = ((λ h. absurd (cc h)), λ (m, k, _, _). absurd (cc k))
verify_database_iff (ok meta) db r = elim (Bool-cases db.opens) [
  | inr e ↦ rw e ((λ h. absurd (cc h)), λ (m, _, h, _). absurd (cc h))
  | inl e ↦ elim (Bool-cases (miscounted meta.folder_count db.count)) [
    | inl k ↦
        rw (e, k)
          (
            (λ h. absurd (cc h)),
            λ (m, z, _, h).
                let same : m ≡ meta = cc z in
                absurd (cc (k, (ap (λ x. miscounted x.folder_count db.count) (sym same) ∙ h))),
          )
    | inr k ↦ rw (e, k) ((λ _. (meta, refl, refl, k)), λ _. refl)
  ]
]
