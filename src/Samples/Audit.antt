-- ===== src/Samples/Audit.antt =====
-- internal/model/audit.go with a channel for one record and two calls of `Log`.
use dtreesync.Base.{Text, true, false, Option, some, none, List, [], ◌∷◌, ◌≡◌, refl, arith}
use dtreesync.Base.Int.{pos}
use dtreesync.Base.Strings.{codes}
use dtreesync.Model.Audit.{
  AuditLogRecord, AuditLogger, new_audit_logger, log_info, send, wait, time_out, begin_close, Event,
  sent, waits, timed_out, closing, Run, begin, next, do_send, do_wait, do_time_out, do_begin_close,
}
use dtreesync.Model.Audit.Runs.{IsAccounted, Run-IsAccounted, IsDrained, Run-drains}

abbrev path_only : AuditLogRecord → Option Text
path_only rec = some rec.path

abbrev first : AuditLogRecord
first = log_info (codes "core") (codes "job_start") (codes "/a") none

abbrev second : AuditLogRecord
second = log_info (codes "core") (codes "job_complete") (codes "/b") none

abbrev fresh : AuditLogger
fresh = new_audit_logger (pos 1)

abbrev full : AuditLogger
full = wait second (send first fresh)

abbrev shut : AuditLogger
shut = begin_close (time_out [] full)

abbrev events : List Event
events = closing ∷ timed_out ∷ waits second ∷ sent first ∷ []

run : Run path_only fresh events shut
unfolding new_audit_logger send wait time_out begin_close
run =
    next
      (next (next (next begin (do_send first refl (omega arith))) (do_wait second refl refl))
        (do_time_out [] second [] refl))
      (do_begin_close refl refl)

is_closed : shut.closed ≡ true
unfolding begin_close
is_closed = refl

is_open_ended : shut.ended ≡ false
unfolding new_audit_logger send wait time_out begin_close
is_open_ended = refl

Run-IsAccounted_example : IsAccounted path_only events shut
Run-IsAccounted_example = Run-IsAccounted path_only (pos 1) events shut run

Run-drains_example :
    (fs : List Event) × (bl : AuditLogger) × IsDrained path_only (pos 1) events fs bl
Run-drains_example = Run-drains path_only (pos 1) 9 events shut run is_closed is_open_ended
