-- ===== src/Clock/Drift.antt =====
-- How far the simulated clock strays from real time.
use Prim.Native.Nat.{◌^◌}
use omnipaxos_kv_project.Prelude.{
  ℕ, zero, suc, ◌+◌, ◌*◌, ◌≤◌, ◌<◌, ◌≡◌, List, [], ◌∷◌, Option, none, some, ap, ap₂, replicate,
  Bool, true, false, arith, length,
}
use omnipaxos_kv_project.Prelude.Words.{add32}
use omnipaxos_kv_project.Prelude.Heap
use omnipaxos_kv_project.Clock.{
  ClockState, millisecond, step, advance, by_time, take_out, fire, fire_popped, process_deadlines,
  tick, resync, get_uncertainty,
}

-- What a loop over the deadlines leaves alone
pub record SameTime (c d : ClockState) : Type 0 where
  pub logical_time : d.logical_time ≡ c.logical_time
  pub counter : d.counter ≡ c.counter
  pub drift : d.drift ≡ c.drift
  pub uncertainty : d.uncertainty ≡ c.uncertainty
  pub sync_freq : d.sync_freq ≡ c.sync_freq
  pub master : d.master ≡ c.master

fire_popped-SameTime :
    (loop : ClockState → ClockState × List ℕ)
    → ((c : ClockState) → SameTime c (loop c).0)
    → (c : ClockState) (o : Option (ℕ × List ℕ)) → SameTime c (fire_popped loop c o).0
fire_popped-SameTime loop same c none = ground arith
fire_popped-SameTime loop same c (some (d, rest)) = ground (arith, same (take_out c d rest))

fire-SameTime : (fuel : ℕ) (c : ClockState) → SameTime c (fire fuel c).0
unfolding fire
fire-SameTime zero c = ground arith
fire-SameTime (suc fuel) c =
    fire_popped-SameTime (fire fuel) (fire-SameTime fuel) c (Heap.pop by_time c.deadlines)

process_deadlines-SameTime : (c : ClockState) → SameTime c (process_deadlines c).0
unfolding process_deadlines
process_deadlines-SameTime c = fire-SameTime (length c.deadlines) c

pub ticks : ClockState → List Bool → ClockState
ticks c [] = c
ticks c (coin ∷ coins) = ticks (tick c coin).0 coins

-- One tick before the resync is due
tick-SameRates :
    (c : ClockState) (coin : Bool)
    → c.counter + 1 < c.sync_freq
    → c.sync_freq < 2 ^ 32
    → let d = (tick c coin).0 in
      (d.counter ≡ c.counter + 1)
      × (d.drift ≡ c.drift)
      × (d.uncertainty ≡ c.uncertainty)
      × (d.sync_freq ≡ c.sync_freq)
      × (d.logical_time ≡ c.logical_time + step c coin)
unfolding tick add32
tick-SameRates c true h w = ground (arith, process_deadlines-SameTime (advance c true))
tick-SameRates c false h w = ground (arith, process_deadlines-SameTime (advance c false))

step_bounds :
    (c : ClockState) (coin : Bool)
    → (millisecond ≤ step c coin + c.drift) × (step c coin ≤ millisecond + c.drift)
step_bounds c true = (omega arith, omega arith)
step_bounds c false = (omega arith, omega arith)

uncertainty_step :
    (c : ClockState) (coin : Bool)
    → c.counter + 1 < c.sync_freq
    → c.sync_freq < 2 ^ 32
    → get_uncertainty (tick c coin).0 ≡ get_uncertainty c + c.drift
unfolding get_uncertainty
uncertainty_step c coin h w =
    let (one, same, known, freq, time) = tick-SameRates c coin h w in
    let product = ap₂ (λ (s t : ℕ). s * t) one same in omega arith

-- Until the resync is due, the clock is within its drift, per tick, of real time, and
-- `get_uncertainty` has grown by as much.
ticks_drift :
    (c : ClockState) (coins : List Bool)
    → c.counter + length coins < c.sync_freq
    → c.sync_freq < 2 ^ 32
    → let d = ticks c coins in
      let n = length coins in
      (c.logical_time + n * millisecond ≤ d.logical_time + n * c.drift)
      × (d.logical_time ≤ c.logical_time + n * millisecond + n * c.drift)
      × (get_uncertainty d ≡ get_uncertainty c + n * c.drift)
unfolding ticks
ticks_drift c [] h w = (omega arith, omega arith, omega arith)
ticks_drift c (coin ∷ coins) h w =
    let (one, same, known, freq, time) = tick-SameRates c coin (omega arith) w in
    let d = (tick c coin).0 in
    let n = length coins in
    let (lows, highs, grown) = ticks_drift d coins (rw (one, freq) (omega arith)) (rw freq w) in
    let drifts : n * d.drift ≡ n * c.drift = ap (λ t. n * t) same in
    let bounds = step_bounds c coin in
    let once = uncertainty_step c coin (omega arith) w in (omega arith, omega arith, omega arith)

-- After a resync at the real time `real`, and until the next one is due, with a sync interval that
-- fits into 32 bits, the uncertainty that the clock reports covers its distance from real time,
-- whatever the random drift.
pub uncertainty_covers_drift :
    (c : ClockState) (real : ℕ) (coins : List Bool)
    → length coins < c.sync_freq
    → c.sync_freq < 2 ^ 32
    → let d = ticks (resync c real) coins in
      let now = real + length coins * millisecond in
      (now ≤ d.logical_time + get_uncertainty d) × (d.logical_time ≤ now + get_uncertainty d)
unfolding resync
uncertainty_covers_drift c real coins h w =
    let (low, high, grown) = ticks_drift (resync c real) coins (omega arith) w in
    let zero_at_resync : get_uncertainty (resync c real) ≡ 0 =
      unfold get_uncertainty in omega arith in
    (omega arith, omega arith)

-- The tick at which the resync is asked for
tick_due :
    (c : ClockState) (coin : Bool)
    → c.counter + 1 ≡ c.sync_freq
    → c.sync_freq < 2 ^ 32
    → let (d, out, sync) = tick c coin in
      (d.counter ≡ 0)
      × (d.uncertainty ≡ c.uncertainty)
      × (d.logical_time ≡ c.logical_time + step c coin)
      × (sync ≡ true)
unfolding tick add32
tick_due c coin h w = ground (arith, process_deadlines-SameTime (advance c coin))

fast_until_due :
    (c : ClockState) (k : ℕ)
    → c.counter + suc k ≡ c.sync_freq
    → c.sync_freq < 2 ^ 32
    → let d = ticks c (replicate (suc k) true) in
      (get_uncertainty d ≡ c.uncertainty)
      × (d.logical_time ≡ c.logical_time + suc k * (millisecond + c.drift))
unfolding ticks
fast_until_due c zero h w =
    let (zeroed, same, time, due) = tick_due c true (omega arith) w in
    let product = ap (λ (s : ℕ). s * (tick c true).0.drift) zeroed in
    (unfold get_uncertainty in omega arith, omega arith)
fast_until_due c (suc k) h w =
    let (one, same, known, freq, fast) = tick-SameRates c true (omega arith) w in
    let d = (tick c true).0 in
    let (grown, time) = fast_until_due d k (rw (one, freq) (omega arith)) (rw freq w) in
    let drifts = ap (λ (t : ℕ). suc k * (millisecond + t)) same in (omega arith, omega arith)

-- With a sync interval that fits into 32 bits, the counter starts again at the tick at which a
-- resync is asked for, before an answer has come: after that tick, with a clock that was fast all
-- the time, the clock reports no uncertainty, although it has drifted at every tick since the last
-- resync.
pub uncertainty_lost_at_sync :
    (c : ClockState) (real k : ℕ)
    → suc k ≡ c.sync_freq
    → c.sync_freq < 2 ^ 32
    → let d = ticks (resync c real) (replicate (suc k) true) in
      (get_uncertainty d ≡ 0) × (d.logical_time ≡ real + suc k * (millisecond + c.drift))
unfolding resync
uncertainty_lost_at_sync c real k h w = fast_until_due (resync c real) k (omega arith) w
