-- ===== src/Clock.antt =====
-- crates/custom-paxos/omnipaxos/src/clock.rs: the simulated clock of a server. A time and a
-- `Duration` are numbers of nanoseconds. The channel of a waiting task is known by a number: what
-- `tick` and `process_deadlines` return beside the state are the channels that they send on.
-- `offset` is stored and never read; the sender of the master's time is the argument of
-- `finish_sync`, and the coin of the random generator that of `tick`.
pub mod Deadlines
pub mod Drift
use omnipaxos_kv_project.Prelude.{
  ℕ, zero, suc, ◌+◌, ◌-◌, ◌*◌, ◌/◌, Option, none, some, List, [], ◌∷◌, ◌++◌, Bool, true, false, ltb,
  leb, ◌==◌, length, if◌then◌else◌,
}
use omnipaxos_kv_project.Prelude.Assoc
use omnipaxos_kv_project.Prelude.Assoc.{Assoc, nat_eq}
use omnipaxos_kv_project.Prelude.Heap
use omnipaxos_kv_project.Prelude.Words.{add32}
use omnipaxos_kv_project.Messages.{Message, sequence_paxos, PaxosMessage, sync_req}

pub record ClockState : Type 0 where
  pub master : ℕ
  pub drift : ℕ
  pub uncertainty : ℕ
  pub sync_freq : ℕ
  pub logical_time : ℕ
  pub counter : ℕ
  pub deadlines : List ℕ
  pub database : Assoc ℕ ℕ

abbrev pub millisecond : ℕ
millisecond = 1_000_000

-- `Clock::new` at the time `now` of the system
unfoldable pub new : ℕ → ℕ → ℕ → ℕ → ℕ → ClockState
new master drift uncertainty sync_freq now = record {
  master = master;
  drift = drift;
  uncertainty = uncertainty;
  sync_freq = sync_freq;
  logical_time = now;
  counter = 0;
  deadlines = [];
  database = [];
}

abbrev pub by_time : ℕ → ℕ
by_time d = d

abbrev pub notify : Option ℕ → List ℕ
notify none = []
notify (some ch) = ch ∷ []

-- A round of the loop takes the deadline `d` out, with its sender.
abbrev pub take_out : ClockState → ℕ → List ℕ → ClockState
take_out c d rest = record c { deadlines = rest; database = Assoc.remove c.database d }

-- A round, with the rest of the loop: a deadline that has passed is taken out and its sender used.
abbrev pub fire_popped :
    (ClockState → ClockState × List ℕ) → ClockState → Option (ℕ × List ℕ) → ClockState × List ℕ
fire_popped loop c none = (c, [])
fire_popped loop c (some (d, rest)) =
    let after = loop (take_out c d rest) in
    if ltb d c.logical_time then (after.0, notify (Assoc.get c.database d) ++ after.1) else (c, [])

-- The `while` loop with fuel
unfoldable pub fire : ℕ → ClockState → ClockState × List ℕ
fire zero c = (c, [])
fire (suc fuel) c = fire_popped (fire fuel) c (Heap.pop by_time c.deadlines)

-- Each round takes one deadline, so their number is enough fuel.
unfoldable pub process_deadlines : ClockState → ClockState × List ℕ
unfolding fire
process_deadlines c = fire (length c.deadlines) c

abbrev pub step : ClockState → Bool → ℕ
step c true = millisecond + c.drift
step c false = millisecond - c.drift

-- The counter and the drifting step of a round of `tick_fn`
abbrev pub advance : ClockState → Bool → ClockState
advance c coin = record c {
  counter = add32 c.counter 1;
  logical_time = c.logical_time + step c coin;
}

-- One round of `tick_fn`: the new state, the channels notified, and whether a resync is started
unfoldable pub tick : ClockState → Bool → ClockState × List ℕ × Bool
tick c coin =
    let (d, out) = process_deadlines (advance c coin) in
    if leb d.sync_freq d.counter then (record d { counter = 0 }, out, true) else (d, out, false)

unfoldable pub new_deadline : ClockState → ℕ
new_deadline c = c.logical_time + 20 * millisecond

unfoldable pub get_uncertainty : ClockState → ℕ
get_uncertainty c = c.uncertainty + c.counter * c.drift

unfoldable pub resync : ClockState → ℕ → ClockState
resync c real_time = record c { logical_time = real_time; counter = 0; uncertainty = 0 }

-- `sync_with_master` up to the wait for an answer: the master, which is server 1, asks nobody.
unfoldable pub sync_request {ℓ} : {T : Type ℓ} → ClockState → List (Message T)
sync_request c =
    if c.master == 1
    then []
    else sequence_paxos (record { from = c.master; to = 1; msg = sync_req }) ∷ []

-- and from there on: `answer` is the master's time, `rtt` the time that the exchange took.
unfoldable pub finish_sync : ClockState → ℕ → ℕ → ClockState
unfolding resync
finish_sync c answer rtt =
    let leader_time = if c.master == 1 then c.logical_time else answer in
    resync c (leader_time + rtt / 2)

unfoldable pub add_deadline : ClockState → ℕ → ℕ → ClockState
add_deadline c deadline ch = record c {
  deadlines = c.deadlines ++ deadline ∷ [];
  database = Assoc.insert c.database deadline ch;
}
