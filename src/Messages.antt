-- ===== src/Messages.antt =====
-- crates/custom-paxos/omnipaxos/src/messages.rs: the messages of the replication and of the
-- leader election. `LogSync` and the `Promise` messages are not sent by this version.
use omnipaxos_kv_project.Prelude.{ℕ, String, Option, Bool}
use omnipaxos_kv_project.Ballot.{Ballot}

pub data PaxosMsg {ℓ} (T : Type ℓ) : Type ℓ where
  ack : T → ℕ → Option (Option (Option String)) → ℕ → PaxosMsg T
  confirm : T → ℕ → PaxosMsg T
  new_deadline : ℕ → ℕ → PaxosMsg T
  sync_req : PaxosMsg T
  sync_answer : ℕ → PaxosMsg T

pub record PaxosMessage {ℓ} (T : Type ℓ) : Type ℓ where
  pub from : ℕ
  pub to : ℕ
  pub msg : PaxosMsg T

pub record HeartbeatRequest : Type 0 where
  pub round : ℕ

pub record HeartbeatReply : Type 0 where
  pub round : ℕ
  pub ballot : Ballot
  pub leader : Ballot
  pub happy : Bool

pub data HeartbeatMsg : Type 0 where
  request : HeartbeatRequest → HeartbeatMsg
  reply : HeartbeatReply → HeartbeatMsg

pub record BleMessage : Type 0 where
  pub from : ℕ
  pub to : ℕ
  pub msg : HeartbeatMsg

pub data Message {ℓ} (T : Type ℓ) : Type ℓ where
  sequence_paxos : PaxosMessage T → Message T
  ble : BleMessage → Message T

module _ {ℓ} {T : Type ℓ} where
  unfoldable pub get_sender : Message T → ℕ
  get_sender (sequence_paxos p) = p.from
  get_sender (ble b) = b.from

  unfoldable pub get_receiver : Message T → ℕ
  get_receiver (sequence_paxos p) = p.to
  get_receiver (ble b) = b.to
