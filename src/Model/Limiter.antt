-- ===== src/Model/Limiter.antt =====
-- internal/model/ratelimit.go. The token bucket of golang.org/x/time/rate is a parameter: its state,
-- and what `Allow` answers and leaves.
use dtreesync.Base.{ℕ, zero, suc, Bool, true, false, Option, none, some}
use dtreesync.Base.Int.{ℤ, pos, negsuc}

pub record Bucket : Type 1 where
  pub State : Type 0
  -- `rate.NewLimiter(rate, burst)`
  pub fresh : ℕ → ℕ → State
  -- `Allow()`
  pub allow : State → Bool × State

module _ (b : Bucket) where
  pub record IopsLimiter : Type 0 where
    pub limiter : Option b.State
    pub enabled : Bool
    pub max_iops : ℕ

  pub new_iops_limiter : ℤ → IopsLimiter
  new_iops_limiter (negsuc n) = record { limiter = none; enabled = false; max_iops = 0 }
  new_iops_limiter (pos zero) = record { limiter = none; enabled = false; max_iops = 0 }
  new_iops_limiter (pos (suc n)) = record {
    limiter = some (b.fresh (suc n) (suc n));
    enabled = true;
    max_iops = suc n;
  }
