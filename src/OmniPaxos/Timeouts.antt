-- ===== src/OmniPaxos/Timeouts.antt =====
-- When the election timeout of `tick` is due.
use omnipaxos_kv_project.Prelude.{
  ℕ, zero, suc, ◌+◌, ◌<◌, ◌^◌, ◌≡◌, refl, ap, List, [], ◌∷◌, ◌++◌, Bool, true, false, arith,
  replicate,
}
use omnipaxos_kv_project.Prelude.Words.{add64}
use omnipaxos_kv_project.OmniPaxos.{LogicalClock, with_timeout, tick_and_check_timeout}

-- What `k` calls of `tick_and_check_timeout` return
pub timeouts : LogicalClock → ℕ → LogicalClock × List Bool
unfolding tick_and_check_timeout
timeouts c zero = (c, [])
timeouts c (suc k) =
    let (c', due) = tick_and_check_timeout c in let (c'', rest) = timeouts c' k in (c'', due ∷ rest)

tick-due :
    (t u : ℕ)
    → t + 1 ≡ u
    → u < 2 ^ 64
    → tick_and_check_timeout (record { time = t; timeout = u }) ≡ (with_timeout u, true)
unfolding tick_and_check_timeout add64
tick-due t u e b = ground arith

tick-early :
    (t u : ℕ)
    → t + 1 < u
    → u < 2 ^ 64
    → tick_and_check_timeout (record { time = t; timeout = u })
      ≡ (record { time = t + 1; timeout = u }, false)
unfolding tick_and_check_timeout add64
tick-early t u e b = ground arith

timeouts-until :
    (k t u : ℕ)
    → t + k + 1 ≡ u
    → u < 2 ^ 64
    → timeouts (record { time = t; timeout = u }) (suc k)
      ≡ (with_timeout u, replicate k false ++ true ∷ [])
unfolding timeouts
timeouts-until zero t u e b = rw (tick-due t u (omega arith) b) refl
timeouts-until (suc k) t u e b =
    rw (tick-early t u (omega arith) b)
      (ap (λ r. (r.0, false ∷ r.1)) (timeouts-until k (t + 1) u (omega arith) b))

-- A clock started with a timeout below 2 ^ 64 fires for the first time on the tick that the timeout
-- counts, and then stands as it was started: its timeouts come at that period.
pub timeouts-period :
    (k : ℕ)
    → suc k < 2 ^ 64
    → timeouts (with_timeout (suc k)) (suc k)
      ≡ (with_timeout (suc k), replicate k false ++ true ∷ [])
timeouts-period k b = timeouts-until k 0 (suc k) (omega arith) b
