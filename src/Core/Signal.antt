-- ===== src/Core/Signal.antt =====
-- internal/core/signal.go: the exit codes and the two-tier handler of `SetupSignalTrap`. The events are
-- the signals, as the goroutine takes them off the channel, and the end of the 500 ms timer.
use dtreesync.Base.{
  ℕ, suc, Bool, true, false, Option, none, some, ◌==◌, nat_eq, ◌≡◌, refl, ◌⊎◌, inl, inr,
  if◌then◌else◌, arith,
}

abbrev pub exit_fatal_error : ℕ
exit_fatal_error = 1

abbrev pub exit_forced : ℕ
exit_forced = 130

pub record Trap : Type 0 where
  -- `signalCount`
  pub count : ℕ
  -- `cancel` was called.
  pub canceled : Bool
  -- The timer is running.
  pub draining : Bool
  -- `onDrainTimeout` was called.
  pub drained : Bool
  pub exited : Option ℕ

abbrev pub armed : Trap
armed = record { count = 0; canceled = false; draining = false; drained = false; exited = none }

unfoldable pub on_signal : Trap → Trap
on_signal t =
    if suc t.count == 1
    then record t { count = suc t.count; canceled = true; draining = true }
    else record t { count = suc t.count; exited = some exit_forced }

-- The callback is called if it is not nil.
unfoldable pub on_deadline : Bool → Trap → Trap
on_deadline has_callback t = record t {
  draining = false;
  drained = has_callback;
  exited = some exit_fatal_error;
}

-- What can happen while the process runs.
pub data Step (has_callback : Bool) : Trap → Trap → Type 0 where
  signal : {t : Trap} → t.exited ≡ none → Step has_callback t (on_signal t)
  deadline :
      {t : Trap}
      → t.exited ≡ none
      → t.draining ≡ true
      → Step has_callback t (on_deadline has_callback t)

pub data Reach (has_callback : Bool) : Trap → Type 0 where
  begin : Reach has_callback armed
  next : {s t : Trap} → Reach has_callback s → Step has_callback s t → Reach has_callback t

-- The process runs, or has ended by the second signal or by the deadline after the first.
abbrev pub IsTrapState : Bool → Trap → Type 0
IsTrapState has_callback t =
    ((t.count ≡ 0) × (t.canceled ≡ false) × (t.draining ≡ false) × (t.exited ≡ none))
    ⊎ ((t.count ≡ 1) × (t.canceled ≡ true) × (t.draining ≡ true) × (t.exited ≡ none))
    ⊎ ((t.count ≡ 1)
        × (t.canceled ≡ true)
        × (t.drained ≡ has_callback)
        × (t.exited ≡ some exit_fatal_error))
    ⊎ ((t.count ≡ 2) × (t.canceled ≡ true) × (t.exited ≡ some exit_forced))

Step-IsTrapState :
    (has_callback : Bool) {s t : Trap}
    → Step has_callback s t
    → IsTrapState has_callback s
    → IsTrapState has_callback t
unfolding on_signal on_deadline
Step-IsTrapState has_callback (signal e) (inl h) = ground arith
Step-IsTrapState has_callback (signal e) (inr (inl h)) = ground arith
Step-IsTrapState has_callback (signal e) (inr (inr (inl h))) = ground arith
Step-IsTrapState has_callback (signal e) (inr (inr (inr h))) = ground arith
Step-IsTrapState has_callback (deadline e d) (inl h) = ground arith
Step-IsTrapState has_callback (deadline e d) (inr (inl h)) = ground arith
Step-IsTrapState has_callback (deadline e d) (inr (inr (inl h))) = ground arith
Step-IsTrapState has_callback (deadline e d) (inr (inr (inr h))) = ground arith

-- In every state that the handler reaches, either no signal has come and nothing is canceled; or one has,
-- the context is canceled and the timer runs; or the deadline has passed, the callback was called if there
-- is one, and the exit code is 1; or a second signal has come and the exit code is 130.
pub Reach-IsTrapState :
    (has_callback : Bool) (t : Trap) → Reach has_callback t → IsTrapState has_callback t
Reach-IsTrapState has_callback t begin = inl (refl, refl, refl, refl)
Reach-IsTrapState has_callback t (next {s} r step) =
    Step-IsTrapState has_callback step (Reach-IsTrapState has_callback s r)
