-- ===== src/Server/Keeping.antt =====
-- The steps of a server's handlers keep its replica one that holds nothing but true acknowledgements.
use omnipaxos_kv_project.Prelude.{
  option-both, ℕ, ◌≡◌, Option, none, some, some-injective, List, subst,
}
use omnipaxos_kv_project.Common.{Command, command_request, ClientMessage}
use omnipaxos_kv_project.Messages.{PaxosMessage, confirm}
use omnipaxos_kv_project.Storage.{LogEntry}
use omnipaxos_kv_project.Storage.Memory.{Hashing}
use omnipaxos_kv_project.SequencePaxos.Handlers.{ProposeErr}
use omnipaxos_kv_project.SequencePaxos.Events
use omnipaxos_kv_project.OmniPaxos
use omnipaxos_kv_project.OmniPaxos.{
  OmniPaxos, read_decided_suffix, try_become_leader, get_current_leader, my_ballot,
}
use omnipaxos_kv_project.Server.{Database}
use omnipaxos_kv_project.Server.Sending.{decided_commands, unwrap_read}
use omnipaxos_kv_project.Server.Loop.{
  OmniPaxosServer, execute, execute_decided, decide_to, appended, append_to_log, new_command,
  handle_confirmation, handle_client_message,
}
use omnipaxos_kv_project.Server.Acknowledging.{SoundServer, event-Sound}

module _ {S : Type 0} (h : Hashing Command) where
  -- Whatever the code comes to without a panic is a server of that kind.
  abbrev pub Keeps : Option (OmniPaxosServer S) → Type 0
  Keeps result = (s' : OmniPaxosServer S) → result ≡ some s' → SoundServer h s'

  pub done : (s : OmniPaxosServer S) → SoundServer h s → Keeps (some s)
  done s k s' reached = subst (SoundServer h) (some-injective reached) k

  execute_decided-Keeps :
      (s : OmniPaxosServer S) (idx : ℕ) (es : List (LogEntry Command))
      → SoundServer h s
      → Keeps (execute_decided s idx es)
  execute_decided-Keeps s idx es k s' reached =
      let (commands, there, rest) = option-both (decided_commands es) _ reached in
      subst (SoundServer h) (some-injective rest) k

  pub decide_to-Keeps :
      (s : OmniPaxosServer S) (idx : ℕ) → SoundServer h s → Keeps (decide_to s idx)
  decide_to-Keeps s idx k s' reached =
      let read = unwrap_read (read_decided_suffix s.omnipaxos s.current_decided_idx) in
      let (es, there, rest) = option-both read (execute_decided s idx) reached in
      execute_decided-Keeps s idx es k s' rest

  appended-Keeps :
      (s : OmniPaxosServer S) (o : OmniPaxos Command S) (db : Database)
      (error : Option (ProposeErr Command))
      → SoundServer h (record s { omnipaxos = o })
      → Keeps (appended s (o, db, error))
  appended-Keeps s o db none k = done _ k
  appended-Keeps s o db (some e) k = λ s' reached. cc

  pub handle_client_message-Keeps :
      (s : OmniPaxosServer S) (from : ℕ) (m : ClientMessage)
      → SoundServer h s
      → Keeps (handle_client_message s from m)
  unfolding handle_client_message append_to_log handle_confirmation OmniPaxos.append Events.step
  handle_client_message-Keeps s from (ClientMessage.append id kv) k =
      let command = new_command s from id kv in
      let (o, db, error) = OmniPaxos.append execute s.omnipaxos s.database command in
      appended-Keeps s o db error
        (event-Sound h s.omnipaxos.seq_paxos s.database (Events.appends command) k)
  handle_client_message-Keeps s from (ClientMessage.ack r idx) k =
      let m : PaxosMessage Command = record { from = 10; to = 10; msg = confirm r idx } in
      done (handle_confirmation s r idx)
        (event-Sound h s.omnipaxos.seq_paxos s.database (Events.receives m) k)
