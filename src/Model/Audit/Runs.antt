-- ===== src/Model/Audit/Runs.antt =====
-- What the audit log holds and has lost after any run of its callers and its worker.
use dtreesync.Base.{
  Text, ℕ, suc, ◌+◌, ◌%◌, ◌^◌, ◌≤◌, true, false, Option, none, some, List, [], ◌∷◌, ◌++◌, ◌≡◌, refl,
  sym, ◌∙◌, ap, length, append_assoc, append-nil, arith, length-append,
}
use dtreesync.Base.Int.{ℤ}
use dtreesync.Model.Types.{Instant}
use dtreesync.Model.Audit.{
  AuditLogRecord, AuditLogger, new_audit_logger, refuse, send, wait, send_late, time_out, receive,
  write_record, stamp, marshalled, pass_on, begin_close, end_close, Event, refused, sent, waits,
  sent_late, timed_out, received, written, ending, Step, do_refuse, do_send, do_wait, do_send_late,
  do_time_out, do_receive, do_write, do_pass_on, do_begin_close, do_end_close, Run, begin, next,
}

-- The records that the channel took, in this order.
unfoldable pub accepted : List Event → List AuditLogRecord
accepted [] = []
accepted (sent rec ∷ es) = accepted es ++ (rec ∷ [])
accepted (sent_late rec ∷ es) = accepted es ++ (rec ∷ [])
accepted (_ ∷ es) = accepted es

-- The records that the worker wrote, and what it wrote of them.
unfoldable pub handled : List Event → List AuditLogRecord
handled [] = []
handled (written now rec ∷ es) = handled es ++ (rec ∷ [])
handled (_ ∷ es) = handled es

unfoldable pub lines : (AuditLogRecord → Option Text) → List Event → Text
lines marshal [] = []
lines marshal (written now rec ∷ es) = lines marshal es ++ marshalled (marshal (stamp now rec))
lines marshal (_ ∷ es) = lines marshal es

-- The calls of `Log`, and those that found the logger closed or gave up.
unfoldable pub calls : List Event → ℕ
calls [] = 0
calls (refused rec ∷ es) = suc (calls es)
calls (sent rec ∷ es) = suc (calls es)
calls (waits rec ∷ es) = suc (calls es)
calls (_ ∷ es) = calls es

unfoldable pub refusals : List Event → ℕ
refusals [] = 0
refusals (refused rec ∷ es) = suc (refusals es)
refusals (_ ∷ es) = refusals es

unfoldable pub timeouts : List Event → ℕ
timeouts [] = 0
timeouts (timed_out ∷ es) = suc (timeouts es)
timeouts (_ ∷ es) = timeouts es

abbrev in_hand : Option AuditLogRecord → List AuditLogRecord → List AuditLogRecord
in_hand none queue = queue
in_hand (some rec) queue = rec ∷ queue

pub record IsAccounted (marshal : AuditLogRecord → Option Text) (es : List Event) (al : AuditLogger)
    : Type 0 where
  pub in_order : handled es ++ in_hand al.held al.queue ≡ accepted es
  pub bytes : al.output ++ al.buffered ≡ lines marshal es
  pub counted : calls es ≡ length (accepted es) + length al.waiting + timeouts es + refusals es
  pub dropped : al.dropped_logs ≡ (timeouts es + refusals es) % 2 ^ 64
  pub sequence : al.seq ≡ (length (accepted es) + length al.waiting + timeouts es) % 2 ^ 64
  pub bounded : length al.queue ≤ al.capacity
  pub locked : al.closed ≡ true → al.waiting ≡ []
  pub finished :
      al.ended ≡ true → (al.closed ≡ true) × (al.queue ≡ []) × (al.held ≡ none) × (al.buffered ≡ [])

length-snoc :
    (xs : List AuditLogRecord) (x : AuditLogRecord) → length (xs ++ (x ∷ [])) ≡ suc (length xs)
length-snoc xs x = length-append xs (x ∷ []) ∙ omega arith

length-middle :
    (xs : List AuditLogRecord) (x : AuditLogRecord) (ys : List AuditLogRecord)
    → length (xs ++ (x ∷ ys)) ≡ suc (length (xs ++ ys))
length-middle xs x ys = omega (arith, length-append xs (x ∷ ys), length-append xs ys)

in_hand-snoc :
    (held : Option AuditLogRecord) (queue : List AuditLogRecord) (rec : AuditLogRecord)
    → in_hand held (queue ++ (rec ∷ [])) ≡ in_hand held queue ++ (rec ∷ [])
in_hand-snoc none queue rec = refl
in_hand-snoc (some r) queue rec = refl

enqueued :
    (hs xs queue : List AuditLogRecord) (held : Option AuditLogRecord) (rec : AuditLogRecord)
    → hs ++ in_hand held queue ≡ xs
    → hs ++ in_hand held (queue ++ (rec ∷ [])) ≡ xs ++ (rec ∷ [])
enqueued hs xs queue held rec e =
    ap (λ l. hs ++ l) (in_hand-snoc held queue rec)
    ∙ sym (append_assoc hs (in_hand held queue) (rec ∷ []))
    ∙ ap (λ l. l ++ (rec ∷ [])) e

rest-nil : (xs ys : Text) → xs ++ ys ≡ [] → ys ≡ []
rest-nil [] ys e = e
rest-nil (x ∷ xs) ys e = cc

Step-IsAccounted :
    (marshal : AuditLogRecord → Option Text) (es : List Event) (e : Event) (al bl : AuditLogger)
    → Step marshal al e bl
    → IsAccounted marshal es al
    → IsAccounted marshal (e ∷ es) bl
unfolding accepted handled lines calls refusals timeouts refuse send wait send_late time_out receive
    write_record pass_on begin_close end_close
Step-IsAccounted marshal es _ al _ (do_refuse rec c) h = ground arith
Step-IsAccounted marshal es _ al _ (do_send rec c room) h = ground (
  arith,
  length-snoc (accepted es) rec,
  length-snoc al.queue rec,
  enqueued (handled es) (accepted es) al.queue al.held rec h.in_order,
)
Step-IsAccounted marshal es _ al _ (do_wait rec c full) h = ground arith
Step-IsAccounted marshal es _ al _ (do_send_late before rec after w room) h = ground (
  arith,
  length-snoc (accepted es) rec,
  length-snoc al.queue rec,
  length-middle before rec after,
  ap length w,
  enqueued (handled es) (accepted es) al.queue al.held rec h.in_order,
)
Step-IsAccounted marshal es _ al _ (do_time_out before rec after w) h =
    ground (arith, length-middle before rec after, ap length w)
Step-IsAccounted marshal es _ al _ (do_receive rec rest k q) h = ground arith
Step-IsAccounted marshal es _ al _ (do_write now rec k) h = ground (
  arith,
  append_assoc (handled es) (rec ∷ []) al.queue,
  append_assoc al.output al.buffered (marshalled (marshal (stamp now rec))),
)
Step-IsAccounted marshal es _ al _ (do_pass_on first rest b) h =
    ground (arith, append_assoc al.output first rest, rest-nil first rest)
Step-IsAccounted marshal es _ al _ (do_begin_close c w) h = ground arith
Step-IsAccounted marshal es _ al _ (do_end_close c q k n) h =
    ground (arith, append-nil (al.output ++ al.buffered))

Run-keeps :
    (marshal : AuditLogRecord → Option Text) (al : AuditLogger) (es : List Event) (cl : AuditLogger)
    → IsAccounted marshal [] al
    → Run marshal al es cl
    → IsAccounted marshal es cl
Run-keeps marshal al _ _ h begin = h
Run-keeps marshal al _ cl h (next {bl} {e} {es} run st) =
    Step-IsAccounted marshal es e bl cl st (Run-keeps marshal al es bl h run)

new-IsAccounted :
    (marshal : AuditLogRecord → Option Text) (cap : ℤ)
    → IsAccounted marshal [] (new_audit_logger cap)
unfolding new_audit_logger accepted handled lines calls refusals timeouts
new-IsAccounted marshal cap = ground arith

-- After any run of a new audit log: what the worker has written, holds and has in its queue are the
-- records that the queue took, in this order; the bytes in the writer and the buffer are their lines.
-- Every call of `Log` is accepted, waits, timed out or was refused on the closed log, the last two are
-- the count of dropped records and the others the sequence number (modulo 2^64). The queue is within
-- its capacity, nothing waits on a closed log, and an ended one is closed, empty and flushed.
pub Run-IsAccounted :
    (marshal : AuditLogRecord → Option Text) (cap : ℤ) (es : List Event) (al : AuditLogger)
    → Run marshal (new_audit_logger cap) es al
    → IsAccounted marshal es al
Run-IsAccounted marshal cap es al =
    Run-keeps marshal (new_audit_logger cap) es al (new-IsAccounted marshal cap)

-- What a closed log still has to do: the worker's part of a run.
pub record IsDrained (marshal : AuditLogRecord → Option Text) (cap : ℤ) (es fs : List Event)
    (bl : AuditLogger) : Type 0 where
  pub run : Run marshal (new_audit_logger cap) fs bl
  pub ended : bl.ended ≡ true
  pub taken : accepted fs ≡ accepted es
  pub called : calls fs ≡ calls es
  pub all_handled : handled fs ≡ accepted es
  pub all_written : bl.output ≡ lines marshal fs

drained :
    (marshal : AuditLogRecord → Option Text) (cap : ℤ) (es fs : List Event) (bl : AuditLogger)
    → Run marshal (new_audit_logger cap) fs bl
    → bl.ended ≡ true
    → accepted fs ≡ accepted es
    → calls fs ≡ calls es
    → IsDrained marshal cap es fs bl
drained marshal cap es fs bl run e a c =
    let h = Run-IsAccounted marshal cap fs bl run in
    let (closed, queue, held, buffered) = h.finished e in
    record {
      run = run;
      ended = e;
      taken = a;
      called = c;
      all_handled = ground (arith, append-nil (handled fs));
      all_written = ground (arith, append-nil bl.output);
    }

module _ (marshal : AuditLogRecord → Option Text) (cap : ℤ) (now : Instant) where
  drain :
      (queue : List AuditLogRecord) (es : List Event) (al : AuditLogger)
      → Run marshal (new_audit_logger cap) es al
      → al.queue ≡ queue
      → al.held ≡ none
      → al.closed ≡ true
      → al.ended ≡ false
      → (fs : List Event) × (bl : AuditLogger) × IsDrained marshal cap es fs bl
  unfolding accepted calls receive write_record end_close
  drain [] es al run q k c n = (
    ending ∷ es,
    end_close al,
    drained marshal cap es (ending ∷ es) (end_close al) (next run (do_end_close c q k n)) refl refl
        refl,
  )
  drain (rec ∷ rest) es al run q k c n =
      let (fs, bl, d) =
        drain rest (written now rec ∷ received ∷ es)
          (write_record marshal now rec (receive rec rest al))
          (next (next run (do_receive rec rest k q)) (do_write now rec refl)) refl refl c n in
      (fs, bl, drained marshal cap es fs bl d.run d.ended d.taken d.called)

  drain_held :
      (held : Option AuditLogRecord) (es : List Event) (al : AuditLogger)
      → Run marshal (new_audit_logger cap) es al
      → al.held ≡ held
      → al.closed ≡ true
      → al.ended ≡ false
      → (fs : List Event) × (bl : AuditLogger) × IsDrained marshal cap es fs bl
  unfolding accepted calls write_record
  drain_held none es al run k c n = drain al.queue es al run refl k c n
  drain_held (some rec) es al run k c n =
      let (fs, bl, d) =
        drain al.queue (written now rec ∷ es) (write_record marshal now rec al)
          (next run (do_write now rec k)) refl refl c n in
      (fs, bl, drained marshal cap es fs bl d.run d.ended d.taken d.called)

  pub Run-drains :
      (es : List Event) (al : AuditLogger)
      → Run marshal (new_audit_logger cap) es al
      → al.closed ≡ true
      → al.ended ≡ false
      → (fs : List Event) × (bl : AuditLogger) × IsDrained marshal cap es fs bl
  Run-drains es al run c n = drain_held al.held es al run refl c n
