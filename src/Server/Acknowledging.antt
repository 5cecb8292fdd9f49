-- ===== src/Server/Acknowledging.antt =====
-- What a server sends to the clients comes from a replica that holds nothing but acknowledgements
-- that are true of its log.
use omnipaxos_kv_project.Prelude.{
  ◌>>=◌, ◌≡◌, refl, Option, none, some, List, [], ◌∷◌, Bool-cases, inl, inr, All,
}
use omnipaxos_kv_project.Ballot.{Ballot}
use omnipaxos_kv_project.Common.{Command, command_request, ServerMessage}
use omnipaxos_kv_project.Messages.{
  Message, sequence_paxos, ble, PaxosMsg, confirm, new_deadline, sync_req, sync_answer,
}
use omnipaxos_kv_project.Storage.Memory.{Hashing}
use omnipaxos_kv_project.Election.{hb_timeout}
use omnipaxos_kv_project.SequencePaxos.{SequencePaxos}
use omnipaxos_kv_project.SequencePaxos.Handlers.{take_outgoing_client_msgs}
use omnipaxos_kv_project.SequencePaxos.Leading.{get_promise}
use omnipaxos_kv_project.SequencePaxos.Events
use omnipaxos_kv_project.SequencePaxos.Events.Acks.{IsJustified, IsJustifiedMsg}
use omnipaxos_kv_project.SequencePaxos.Events.Sound.{Sound, step-Sound}
use omnipaxos_kv_project.OmniPaxos
use omnipaxos_kv_project.OmniPaxos.{
  OmniPaxos, lead_if, election_timeout, tick_and_check_timeout, take_outgoing_messages,
  take_client_outgoing_messages, handle_incoming, try_become_leader,
}
use omnipaxos_kv_project.Server.{Database}
use omnipaxos_kv_project.Server.Network.{Network, send_to_client}
use omnipaxos_kv_project.Server.Sending.{to_server_message, ack_only, send_all_to_client}
use omnipaxos_kv_project.Server.Loop.{OmniPaxosServer, execute, send_to_peers, send_acks}

-- The acknowledgements among the messages, as a client is sent them
abbrev acks_in : PaxosMsg Command → List ServerMessage → List ServerMessage
acks_in (PaxosMsg.ack a b c d) rest = ServerMessage.ack a b c d ∷ rest
acks_in _ rest = rest

abbrev pub acks_of : List (Message Command) → List ServerMessage
acks_of [] = []
acks_of (sequence_paxos m ∷ ms) = acks_in m.msg (acks_of ms)
acks_of (ble m ∷ ms) = acks_of ms

-- All of them are sent to the proxy, which is client 1, one after another.
abbrev pub delivered : Network → List ServerMessage → Network
delivered n [] = n
delivered n (a ∷ acks) = delivered (send_to_client n 1 a) acks

module _ (h : Hashing Command) where
  send_all_to_client-justified :
      (log : List Command) (n : Network) (ms : List (Message Command))
      → All (IsJustified h log) ms
      → send_all_to_client n ms ≡ some (delivered n (acks_of ms))
  unfolding send_all_to_client to_server_message
  send_all_to_client-justified log n [] j = refl
  send_all_to_client-justified log n (sequence_paxos m ∷ ms) (here, there) =
      one m.msg here (λ a. send_all_to_client-justified log (send_to_client n 1 a) ms there)
    where
      one :
          (msg : PaxosMsg Command)
          → IsJustifiedMsg h log msg
          → ((a : ServerMessage)
              → send_all_to_client (send_to_client n 1 a) ms
                ≡ some (delivered (send_to_client n 1 a) (acks_of ms)))
          → (ack_only msg >>= λ a. send_all_to_client (send_to_client n 1 a) ms)
            ≡ some (delivered n (acks_in msg (acks_of ms)))
      one (PaxosMsg.ack a b c d) j later = later (ServerMessage.ack a b c d)
      one (confirm c idx) j later = absurd j
      one (new_deadline id d) j later = absurd j
      one sync_req j later = absurd j
      one (sync_answer t) j later = absurd j
  send_all_to_client-justified log n (ble m ∷ ms) (here, there) = absurd here

module _ {S : Type 0} (h : Hashing Command) where
  abbrev pub SoundServer : OmniPaxosServer S → Type 0
  SoundServer s = Sound h s.omnipaxos.seq_paxos

  -- Each call of the replica is an event of it.
  pub event-Sound :
      (p : SequencePaxos Command S) (db : Database) (event : Events.Event Command)
      → Sound h p
      → Sound h (Events.step h execute (p, db) event).0
  event-Sound p db event k = step-Sound h execute p db event k

  take_outgoing_messages-Sound :
      (o : OmniPaxos Command S) (db : Database)
      → Sound h o.seq_paxos
      → Sound h (take_outgoing_messages o []).0.seq_paxos
  unfolding take_outgoing_messages Events.step
  take_outgoing_messages-Sound o db k = event-Sound o.seq_paxos db Events.sends k

  take_client_outgoing_messages-Sound :
      (o : OmniPaxos Command S) (db : Database)
      → Sound h o.seq_paxos
      → Sound h (take_client_outgoing_messages o []).0.seq_paxos
  unfolding take_client_outgoing_messages Events.step
  take_client_outgoing_messages-Sound o db k = event-Sound o.seq_paxos db Events.sends_clients k

  pub lead_if-Sound :
      (n : Option Ballot) (p : SequencePaxos Command S) (db : Database)
      → Sound h p
      → Sound h (lead_if n p)
  unfolding Events.step
  lead_if-Sound none p db k = k
  lead_if-Sound (some n) p db k = event-Sound p db (Events.leads n) k

  pub tick-Sound :
      (o : OmniPaxos Command S) (db : Database)
      → Sound h o.seq_paxos
      → Sound h (OmniPaxos.tick o).seq_paxos
  unfolding OmniPaxos.tick election_timeout
  tick-Sound o db k = elim (Bool-cases (tick_and_check_timeout o.election_clock).1) [
    | inl e ↦ rw e (
        lead_if-Sound
          (hb_timeout o.election o.seq_paxos.role o.seq_paxos.phase (get_promise o.seq_paxos)).1
          o.seq_paxos db k)
    | inr e ↦ rw e k
  ]

  pub handle_incoming-Sound :
      (o : OmniPaxos Command S) (db : Database) (m : Message Command)
      → Sound h o.seq_paxos
      → Sound h (handle_incoming execute o db m).0.seq_paxos
  unfolding handle_incoming Events.step
  handle_incoming-Sound o db (sequence_paxos m) k = event-Sound o.seq_paxos db (Events.receives m) k
  handle_incoming-Sound o db (ble m) k = k

  pub send_to_peers-Sound : (s : OmniPaxosServer S) → SoundServer s → SoundServer (send_to_peers s)
  unfolding send_to_peers
  send_to_peers-Sound s k = take_outgoing_messages-Sound s.omnipaxos s.database k

  -- A server whose replica holds nothing but such acknowledgements sends them.
  pub send_acks-Sound :
      (s : OmniPaxosServer S)
      → SoundServer s
      → (s' : OmniPaxosServer S) × (send_acks s ≡ some s')
        × SoundServer s'
        × (s'.network ≡ delivered s.network (acks_of s.omnipaxos.seq_paxos.outgoing_clients))
        × (s'.omnipaxos.seq_paxos.outgoing_clients ≡ [])
  unfolding send_acks take_client_outgoing_messages take_outgoing_client_msgs Events.step
  send_acks-Sound s k =
      let p = s.omnipaxos.seq_paxos in
      let sent =
        send_all_to_client-justified h p.internal_storage.storage.log s.network p.outgoing_clients
          k.justified in
      let o = (take_client_outgoing_messages s.omnipaxos []).0 in
      (
        record s { omnipaxos = o; network = delivered s.network (acks_of p.outgoing_clients) },
        rw sent refl,
        take_client_outgoing_messages-Sound s.omnipaxos s.database k,
        refl,
        refl,
      )
