-- ===== src/Server/Serving.antt =====
-- A server in any run: it does not panic when it sends what its replica holds for the clients.
use omnipaxos_kv_project.Prelude.{
  ◌>>=◌, option-both, ℕ, ◌≡◌, Option, some, some-injective, subst, List, [], ◌∷◌, Bool, true, false,
  Bool-cases, inl, inr, ltb, ◌==◌, ◌||◌,
}
use omnipaxos_kv_project.Common.{Command, command_request, omni_paxos_message, leader_start_signal}
use omnipaxos_kv_project.Storage.Memory.{Hashing}
use omnipaxos_kv_project.SequencePaxos.Events
use omnipaxos_kv_project.OmniPaxos.{try_become_leader, get_current_leader, my_ballot}
use omnipaxos_kv_project.Server.Loop.{
  OmniPaxosServer, handle_client_message, incoming, decided_idx, decide_to, send_acks,
  send_cluster_start_signals, send_client_start_signals,
}
use omnipaxos_kv_project.Server.Running.{
  Selected, tick, cluster, client, Stage, selecting, in_client_messages, in_cluster_messages,
  deciding, reading, sending, sending_acks, Event, selects, advances, runs, waiter_runs, ticks,
  Running, leads, at, leader_tick, select, select_at, advance, step, run,
}
use omnipaxos_kv_project.Server.Acknowledging.{
  SoundServer, event-Sound, tick-Sound, handle_incoming-Sound, send_to_peers-Sound, send_acks-Sound,
  acks_of, delivered,
}
use omnipaxos_kv_project.Server.Keeping.{Keeps, done, handle_client_message-Keeps, decide_to-Keeps}

module _ {S : Type 0} (h : Hashing Command) where
  abbrev SoundRunning : Option (Running S) → Type 0
  SoundRunning result = (r : Running S) → result ≡ some r → SoundServer h r.server

  reached_at : (r : Running S) → SoundServer h r.server → SoundRunning (some r)
  reached_at r k r' reached = subst (λ x. SoundServer h x.server) (some-injective reached) k

  then_at :
      (result : Option (OmniPaxosServer S)) (led : Bool) (stage : Stage)
      → Keeps h result
      → SoundRunning (result >>= λ s. some (at s led stage))
  then_at result led stage keeps r reached =
      let (s, there, rest) = option-both result _ reached in
      reached_at (at s led stage) (keeps s there) r rest

  leader_tick-Sound :
      (s : OmniPaxosServer S) (time : ℕ)
      → SoundServer h s
      → SoundServer h (leader_tick s time).server
  unfolding leader_tick send_cluster_start_signals send_client_start_signals try_become_leader
      Events.step
  leader_tick-Sound s time k = elim (Bool-cases (leads s.id (get_current_leader s.omnipaxos))) [
    | inl e ↦ rw e k
    | inr e ↦
        rw e
          (event-Sound h s.omnipaxos.seq_paxos s.database (Events.leads (my_ballot s.omnipaxos)) k)
  ]

  select-Sound :
      (s : OmniPaxosServer S) (led : Bool) (event : Selected)
      → SoundServer h s
      → SoundServer h (select s led event).server
  select-Sound s true (tick time) k = tick-Sound h s.omnipaxos s.database k
  select-Sound s false (tick time) k = elim (Bool-cases (s.config.cluster.initial_leader == s.id)) [
    | inl e ↦ rw e (leader_tick-Sound s time k)
    | inr e ↦ rw e k
  ]
  select-Sound s true (cluster ms) k = k
  select-Sound s false (cluster ms) k = k
  select-Sound s true (client ms) k = k
  select-Sound s false (client ms) k = k

  select_at-Sound :
      (s : OmniPaxosServer S) (led : Bool) (stage : Stage) (event : Selected)
      → SoundServer h s
      → SoundServer h (select_at s led stage event).server
  select_at-Sound s led selecting event k = select-Sound s led event k
  select_at-Sound s led (in_client_messages ms) event k = k
  select_at-Sound s led (in_cluster_messages ms started) event k = k
  select_at-Sound s led (deciding ms started) event k = k
  select_at-Sound s led (reading idx ms started) event k = k
  select_at-Sound s led (sending ends) event k = k
  select_at-Sound s led (sending_acks ends) event k = k

  advance-Sound :
      (s : OmniPaxosServer S) (led : Bool) (stage : Stage)
      → SoundServer h s
      → SoundRunning (advance s led stage)
  unfolding send_client_start_signals
  advance-Sound s led selecting k = reached_at _ k
  advance-Sound s led (in_client_messages []) k = reached_at _ k
  advance-Sound s led (in_client_messages ((from, m) ∷ ms)) k =
      then_at (handle_client_message s from m) led (in_client_messages ms)
        (handle_client_message-Keeps h s from m k)
  advance-Sound s led (in_cluster_messages [] started) k = reached_at _ k
  advance-Sound s led (in_cluster_messages ((from, omni_paxos_message m) ∷ ms) started) k =
      reached_at (at (incoming s m) led (deciding ms started))
        (handle_incoming-Sound h s.omnipaxos s.database m k)
  advance-Sound s led (in_cluster_messages ((from, leader_start_signal time) ∷ ms) started) k =
      reached_at _ k
  advance-Sound s led (deciding ms started) k =
      elim (Bool-cases (ltb s.current_decided_idx (decided_idx s))) [
        | inl e ↦ rw e (reached_at _ k)
        | inr e ↦ rw e (reached_at _ k)
      ]
  advance-Sound s led (reading idx ms started) k =
      then_at (decide_to s idx) led (in_cluster_messages ms started) (decide_to-Keeps h s idx k)
  advance-Sound s led (sending ends) k = reached_at _ (send_to_peers-Sound h s k)
  advance-Sound s led (sending_acks ends) k = then_at (send_acks s) (led || ends) selecting (
      let (s', sent, k', network, emptied) = send_acks-Sound h s k in
      λ s'' reached. done h s' k' s'' (rw (← sent) reached))

  step-Sound :
      (r : Running S) (event : Event) → SoundServer h r.server → SoundRunning (step h r event)
  unfolding step
  step-Sound r (selects event) k =
      reached_at (select_at r.server r.led r.stage event)
        (select_at-Sound r.server r.led r.stage event k)
  step-Sound r advances k = advance-Sound r.server r.led r.stage k
  step-Sound r (runs i rtt) k =
      reached_at _
        (event-Sound h r.server.omnipaxos.seq_paxos r.server.database (Events.runs i rtt) k)
  step-Sound r waiter_runs k =
      reached_at _
        (event-Sound h r.server.omnipaxos.seq_paxos r.server.database Events.waiter_runs k)
  step-Sound r (ticks coin) k =
      reached_at _
        (event-Sound h r.server.omnipaxos.seq_paxos r.server.database (Events.ticks coin) k)

  run-Sound :
      (r : Running S) (events : List Event) → SoundServer h r.server → SoundRunning (run h r events)
  unfolding run
  run-Sound r [] k = reached_at r k
  run-Sound r (event ∷ events) k = λ r' reached.
      let (next, there, rest) = option-both (step h r event) _ reached in
      run-Sound next events (step-Sound r event k next there) r' rest

  -- From a server, wherever its loop stands, whose replica takes no batches, has an empty batch,
  -- counts its accepted entries by the length of its log and holds, for its clients and in its
  -- tasks, only acknowledgements that are true of its log: after any run that has not panicked, of
  -- the steps of its two loops and of the replica's tasks in any order, the replica is still such,
  -- so each acknowledgement that it holds carries the hash and the length, modulo 2 ^ 64, of a prefix
  -- of its log that ends with the acknowledged command; and when the server then sends what it holds
  -- for the clients, it does not come to `unreachable!`, sends every one of those acknowledgements,
  -- in their order, to the proxy, and holds none any more.
  pub send_acks-run :
      (first final : Running S) (events : List Event)
      → SoundServer h first.server
      → run h first events ≡ some final
      → let s = final.server in
        SoundServer h s
        × (s' : OmniPaxosServer S) × (send_acks s ≡ some s')
        × (s'.network ≡ delivered s.network (acks_of s.omnipaxos.seq_paxos.outgoing_clients))
        × (s'.omnipaxos.seq_paxos.outgoing_clients ≡ [])
  send_acks-run first final events k reached =
      let k' = run-Sound first events k final reached in
      let (s', sent, kept, network, emptied) = send_acks-Sound h final.server k' in
      (k', s', sent, network, emptied)
