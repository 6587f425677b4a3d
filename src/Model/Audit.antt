-- ===== src/Model/Audit.antt =====
-- internal/model/audit.go: the queue, the worker and the closing of the audit log. The callers of `Log`,
-- the worker and the ticker are a step relation over the logger. `json.Marshal` is an argument; the
-- writer takes all that it is given, and the errors of its `Sync` and `Close` are left out.
pub mod Runs
use dtreesync.Base.{
  Text, ℕ, suc, ◌+◌, ◌%◌, ◌^◌, ◌<◌, Bool, true, false, Option, none, some, List, [], ◌∷◌, ◌++◌,
  ◌==◌, nat_eq, ◌≡◌, ltb, length, if◌then◌else◌,
}
use dtreesync.Base.Int.{ℤ, pos, negsuc}
use dtreesync.Base.Strings.{codes}
use dtreesync.Model.Types.{Instant}

abbrev pub default_audit_queue_capacity : ℕ
default_audit_queue_capacity = 100000

-- The details are JSON, or a value that `json.Marshal` refuses. Instant 0 is the zero time.
pub record AuditLogRecord : Type 0 where
  pub timestamp : Instant
  pub level : Text
  pub subsystem : Text
  pub event : Text
  pub path : Text
  pub error : Text
  pub details : Option Text

pub record AuditLogger : Type 0 where
  -- The capacity of the channel, and the records in it.
  pub capacity : ℕ
  pub queue : List AuditLogRecord
  -- The record that the worker has received and not yet written.
  pub held : Option AuditLogRecord
  -- The calls of `Log` that wait for room in the channel, with the lock held for reading.
  pub waiting : List AuditLogRecord
  pub closed : Bool
  pub seq : ℕ
  pub dropped_logs : ℕ
  -- The bytes in `bufferedW`, and those that the writer has.
  pub buffered : Text
  pub output : Text
  -- The worker has returned and the writer is closed.
  pub ended : Bool

abbrev queue_capacity : ℤ → ℕ
queue_capacity (negsuc n) = default_audit_queue_capacity
queue_capacity (pos n) = if ltb 0 n then n else default_audit_queue_capacity

unfoldable pub new_audit_logger : ℤ → AuditLogger
new_audit_logger queue_cap = record {
  capacity = queue_capacity queue_cap;
  queue = [];
  held = none;
  waiting = [];
  closed = false;
  seq = 0;
  dropped_logs = 0;
  buffered = [];
  output = [];
  ended = false;
}

-- `atomic.Uint64.Add(1)`
abbrev pub add_one : ℕ → ℕ
add_one n = suc n % 2 ^ 64

-- `Log` on a closed logger.
unfoldable pub refuse : AuditLogger → AuditLogger
refuse al = record al { dropped_logs = add_one al.dropped_logs }

-- `Log` with room in the channel.
unfoldable pub send : AuditLogRecord → AuditLogger → AuditLogger
send rec al = record al { seq = add_one al.seq; queue = al.queue ++ (rec ∷ []) }

-- `Log` with the channel full: the call waits,
unfoldable pub wait : AuditLogRecord → AuditLogger → AuditLogger
wait rec al = record al { seq = add_one al.seq; waiting = rec ∷ al.waiting }

-- until there is room,
unfoldable pub send_late : AuditLogRecord → List AuditLogRecord → AuditLogger → AuditLogger
send_late rec others al = record al { waiting = others; queue = al.queue ++ (rec ∷ []) }

-- or 50 ms have passed.
unfoldable pub time_out : List AuditLogRecord → AuditLogger → AuditLogger
time_out others al = record al { waiting = others; dropped_logs = add_one al.dropped_logs }

-- The worker's receive.
unfoldable pub receive : AuditLogRecord → List AuditLogRecord → AuditLogger → AuditLogger
receive rec rest al = record al { held = some rec; queue = rest }

abbrev pub stamp : Instant → AuditLogRecord → AuditLogRecord
stamp now rec = if rec.timestamp == 0 then record rec { timestamp = now } else rec

abbrev newline : Text
newline = 10 ∷ []

abbrev pub marshalled : Option Text → Text
marshalled none = []
marshalled (some json) = json ++ newline

-- `writeRecord` at the time `now`.
unfoldable pub write_record :
    (AuditLogRecord → Option Text) → Instant → AuditLogRecord → AuditLogger → AuditLogger
write_record marshal now rec al = record al {
  held = none;
  buffered = al.buffered ++ marshalled (marshal (stamp now rec));
}

-- `bufferedW` passes its first bytes on when it is full; `flushBuffer` passes on all.
unfoldable pub pass_on : Text → Text → AuditLogger → AuditLogger
pass_on first rest al = record al { output = al.output ++ first; buffered = rest }

unfoldable pub flush_buffer : AuditLogger → AuditLogger
flush_buffer al = record al { output = al.output ++ al.buffered; buffered = [] }

-- The first part of `Close`, with the lock held for writing.
unfoldable pub begin_close : AuditLogger → AuditLogger
begin_close al = record al { closed = true }

-- The end of the worker on the closed channel, and the rest of `Close`.
unfoldable pub end_close : AuditLogger → AuditLogger
unfolding flush_buffer
end_close al = record (flush_buffer al) { ended = true }

abbrev pub leveled : Text → Text → Text → Text → Text → Option Text → AuditLogRecord
leveled level subsystem event path error details = record {
  timestamp = 0;
  level = level;
  subsystem = subsystem;
  event = event;
  path = path;
  error = error;
  details = details;
}

-- The records of `LogInfo`, `LogWarn`, `LogError` and `LogAudit`.
unfoldable pub log_info : Text → Text → Text → Option Text → AuditLogRecord
log_info subsystem event path details = leveled (codes "INFO") subsystem event path [] details

unfoldable pub log_warn : Text → Text → Text → Text → Option Text → AuditLogRecord
log_warn subsystem event path error details =
    leveled (codes "WARN") subsystem event path error details

unfoldable pub log_error : Text → Text → Text → Text → Option Text → AuditLogRecord
log_error subsystem event path error details =
    leveled (codes "ERROR") subsystem event path error details

unfoldable pub log_audit : Text → Text → Text → Option Text → AuditLogRecord
log_audit subsystem event path details = leveled (codes "AUDIT") subsystem event path [] details

-- What one of the callers, the worker, its ticker or the buffer does next.
pub data Event : Type 0 where
  refused sent waits : AuditLogRecord → Event
  sent_late : AuditLogRecord → Event
  timed_out : Event
  received : Event
  written : Instant → AuditLogRecord → Event
  flushed closing ending : Event

pub data Step (marshal : AuditLogRecord → Option Text)
    : AuditLogger → Event → AuditLogger → Type 0 where
  do_refuse :
      {al : AuditLogger} (rec : AuditLogRecord)
      → al.closed ≡ true
      → Step marshal al (refused rec) (refuse al)
  do_send :
      {al : AuditLogger} (rec : AuditLogRecord)
      → al.closed ≡ false
      → length al.queue < al.capacity
      → Step marshal al (sent rec) (send rec al)
  do_wait :
      {al : AuditLogger} (rec : AuditLogRecord)
      → al.closed ≡ false
      → length al.queue ≡ al.capacity
      → Step marshal al (waits rec) (wait rec al)
  do_send_late :
      {al : AuditLogger} (before : List AuditLogRecord) (rec : AuditLogRecord)
      (after : List AuditLogRecord)
      → al.waiting ≡ before ++ (rec ∷ after)
      → length al.queue < al.capacity
      → Step marshal al (sent_late rec) (send_late rec (before ++ after) al)
  do_time_out :
      {al : AuditLogger} (before : List AuditLogRecord) (rec : AuditLogRecord)
      (after : List AuditLogRecord)
      → al.waiting ≡ before ++ (rec ∷ after)
      → Step marshal al timed_out (time_out (before ++ after) al)
  do_receive :
      {al : AuditLogger} (rec : AuditLogRecord) (rest : List AuditLogRecord)
      → al.held ≡ none
      → al.queue ≡ rec ∷ rest
      → Step marshal al received (receive rec rest al)
  do_write :
      {al : AuditLogger} (now : Instant) (rec : AuditLogRecord)
      → al.held ≡ some rec
      → Step marshal al (written now rec) (write_record marshal now rec al)
  do_pass_on :
      {al : AuditLogger} (first rest : Text)
      → al.buffered ≡ first ++ rest
      → Step marshal al flushed (pass_on first rest al)
  do_begin_close :
      {al : AuditLogger}
      → al.closed ≡ false
      → al.waiting ≡ []
      → Step marshal al closing (begin_close al)
  do_end_close :
      {al : AuditLogger}
      → al.closed ≡ true
      → al.queue ≡ []
      → al.held ≡ none
      → al.ended ≡ false
      → Step marshal al ending (end_close al)

-- The events of a run, the last one first.
pub data Run (marshal : AuditLogRecord → Option Text)
    : AuditLogger → List Event → AuditLogger → Type 0 where
  begin : {al : AuditLogger} → Run marshal al [] al
  next :
      {al bl cl : AuditLogger} {e : Event} {es : List Event}
      → Run marshal al es bl
      → Step marshal bl e cl
      → Run marshal al (e ∷ es) cl
