-- ===== src/Server/Appending.antt =====
-- What a server makes of the commands of its clients: proposals to its replica, numbered one after
-- another.
use Prim.Native.Nat.{◌^◌}
use omnipaxos_kv_project.Prelude.{
  ℕ, suc, ◌+◌, ◌<◌, ◌≡◌, refl, sym, ap, ◌∙◌, none, some, List, [], ◌∷◌, ◌++◌, append_assoc,
  append-nil, arith,
}
use omnipaxos_kv_project.Prelude.Words.{add64, add64_exact}
use omnipaxos_kv_project.Common.{Command, KvCommand, ClientMessage}
use omnipaxos_kv_project.Clock.{new_deadline}
use omnipaxos_kv_project.SequencePaxos.{
  SequencePaxos, Task, propose, append_released, push_ack, free, decide, answer, reply_time,
  sync_with_master, await_time, Role, follower, leader,
}
use omnipaxos_kv_project.SequencePaxos.Handlers.{append, propose_entry, handle, handle_execution}
use omnipaxos_kv_project.OmniPaxos
use omnipaxos_kv_project.Server.{Database}
use omnipaxos_kv_project.Server.Loop.{
  OmniPaxosServer, execute, append_to_log, new_command, handle_confirmation, handle_client_message,
  handle_each_client_message,
}

-- The entries that the replica's tasks are to propose
abbrev pub proposed : List (Task Command) → List Command
proposed [] = []
proposed (propose entry im_leader speculation ∷ ts) = entry ∷ proposed ts
proposed (append_released r speculation ∷ ts) = proposed ts
proposed (push_ack r hash speculation idx ∷ ts) = proposed ts
proposed (free id deadline ∷ ts) = proposed ts
proposed (decide idx ∷ ts) = proposed ts
proposed (answer t ∷ ts) = proposed ts
proposed (reply_time to ∷ ts) = proposed ts
proposed (sync_with_master ∷ ts) = proposed ts
proposed (await_time ∷ ts) = proposed ts

proposed-append : (ts us : List (Task Command)) → proposed (ts ++ us) ≡ proposed ts ++ proposed us
proposed-append [] us = refl
proposed-append (propose entry im_leader speculation ∷ ts) us =
    ap (λ l. entry ∷ l) (proposed-append ts us)
proposed-append (append_released r speculation ∷ ts) us = proposed-append ts us
proposed-append (push_ack r hash speculation idx ∷ ts) us = proposed-append ts us
proposed-append (free id deadline ∷ ts) us = proposed-append ts us
proposed-append (decide idx ∷ ts) us = proposed-append ts us
proposed-append (answer t ∷ ts) us = proposed-append ts us
proposed-append (reply_time to ∷ ts) us = proposed-append ts us
proposed-append (sync_with_master ∷ ts) us = proposed-append ts us
proposed-append (await_time ∷ ts) us = proposed-append ts us

-- The commands of the clients' appends, in their order, with the private ids from `next` on
abbrev pub numbered : ℕ → ℕ → ℕ → List (ℕ × ClientMessage) → List Command
numbered me deadline next [] = []
numbered me deadline next ((from, ClientMessage.append id kv) ∷ ms) =
    record {
      client_id = from;
      coordinator_id = me;
      id = id;
      private_id = next;
      deadline = deadline;
      kv_cmd = kv;
    }
    ∷ numbered me deadline (next + 1) ms
numbered me deadline next ((from, ClientMessage.ack r idx) ∷ ms) = numbered me deadline next ms

abbrev pub appends : List (ℕ × ClientMessage) → ℕ
appends [] = 0
appends ((from, ClientMessage.append id kv) ∷ ms) = suc (appends ms)
appends ((from, ClientMessage.ack r idx) ∷ ms) = appends ms

module _ {S : Type 0} where
  -- The replica `p'` has the clock and the stop-sign of `p`, and proposes `new` beyond it.
  abbrev Proposes : SequencePaxos Command S → SequencePaxos Command S → List Command → Type 0
  Proposes p p' new =
      (p'.clock ≡ p.clock)
      × (p'.internal_storage.state_cache.stopsign ≡ p.internal_storage.state_cache.stopsign)
      × (proposed p'.tasks ≡ proposed p.tasks ++ new)

  propose_entry-Proposes :
      (r : Role) (p : SequencePaxos Command S) (db : Database) (entry : Command)
      → Proposes p (propose_entry execute r p db entry).0 (entry ∷ [])
  propose_entry-Proposes follower p db entry = (refl, refl, proposed-append p.tasks _)
  propose_entry-Proposes leader p db entry = (refl, refl, proposed-append p.tasks _)

  handle_execution-Proposes :
      (r : Role) (p : SequencePaxos Command S) (db : Database) (entry : Command) (idx : ℕ)
      → Proposes p (handle_execution execute r p db entry idx).0 []
  handle_execution-Proposes follower p db entry idx = (refl, refl, proposed-append p.tasks _)
  handle_execution-Proposes leader p db entry idx = (refl, refl, proposed-append p.tasks _)

  abbrev pub replica_of : OmniPaxosServer S → SequencePaxos Command S
  replica_of s = s.omnipaxos.seq_paxos

  append_to_log-Proposes :
      (s : OmniPaxosServer S) (from id : ℕ) (kv : KvCommand)
      → (replica_of s).internal_storage.state_cache.stopsign ≡ none
      → s.private_command_id + 1 < 2 ^ 64
      → (s' : OmniPaxosServer S) × (append_to_log s from id kv ≡ some s')
        × (s'.id ≡ s.id)
        × (s'.private_command_id ≡ s.private_command_id + 1)
        × Proposes (replica_of s) (replica_of s') (new_command s from id kv ∷ [])
  unfolding append_to_log OmniPaxos.append append
  append_to_log-Proposes s from id kv n w =
      let cmd = new_command s from id kv in
      let (p, db) = propose_entry execute (replica_of s).role (replica_of s) s.database cmd in
      (
        record s {
          omnipaxos = record (s.omnipaxos) { seq_paxos = p };
          database = db;
          private_command_id = add64 s.private_command_id 1;
        },
        rw n refl,
        refl,
        add64_exact s.private_command_id 1 w,
        propose_entry-Proposes (replica_of s).role (replica_of s) s.database cmd,
      )

  -- Where the replica has accepted no stop-sign and the private ids do not reach 2 ^ 64, a server
  -- handles any messages of its clients without a panic: beside the commands that its replica was
  -- to propose, it is to propose exactly those of the appends in the order of the messages, each with
  -- its sender and the id that the client chose, this server as the coordinator, the deadline of the
  -- server's clock, and a private id one greater than that of the command before; the next private
  -- id is as many greater as there were appends.
  pub handle_each_client_message-proposed :
      (s : OmniPaxosServer S) (ms : List (ℕ × ClientMessage))
      → (replica_of s).internal_storage.state_cache.stopsign ≡ none
      → s.private_command_id + appends ms < 2 ^ 64
      → (s' : OmniPaxosServer S) × (handle_each_client_message s ms ≡ some s')
        × (s'.private_command_id ≡ s.private_command_id + appends ms)
        × (proposed (replica_of s').tasks
            ≡ proposed (replica_of s).tasks
              ++ numbered s.id (new_deadline (replica_of s).clock) s.private_command_id ms)
  unfolding handle_each_client_message handle_client_message new_command handle_confirmation handle
  handle_each_client_message-proposed s [] n w =
      (s, refl, omega arith, sym (append-nil (proposed (replica_of s).tasks)))
  handle_each_client_message-proposed s ((from, ClientMessage.append id kv) ∷ ms) n w =
      let (s₁, reached, same_id, next, replica) =
        append_to_log-Proposes s from id kv n (omega arith) in
      let (clock, stop, tasks) = replica in
      let (s', rest, total, all) =
        handle_each_client_message-proposed s₁ ms (stop ∙ n) (omega (arith, next)) in
      (
        s',
        rw reached rest,
        omega (arith, total, next),
        all ∙ rw (tasks, same_id, next, clock) (append_assoc (proposed (replica_of s).tasks) _ _),
      )
  handle_each_client_message-proposed s ((from, ClientMessage.ack r idx) ∷ ms) n w =
      let p = replica_of s in
      let (clock, stop, tasks) = handle_execution-Proposes p.role p s.database r idx in
      let s₁ = handle_confirmation s r idx in
      let (s', rest, total, all) = handle_each_client_message-proposed s₁ ms (stop ∙ n) w in
      (s', rest, total, all ∙ rw (tasks, clock) (append_assoc (proposed p.tasks) [] _))
