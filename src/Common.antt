-- ===== src/Common.antt =====
-- src/common.rs: the commands of the store (`kv`) and the messages between its processes
-- (`messages`). A `SystemTime` is a number of nanoseconds.
use omnipaxos_kv_project.Prelude.{ℕ, String, refl, Option, none, some}
use omnipaxos_kv_project.Request.{Request}
use omnipaxos_kv_project.Messages.{Message}
use omnipaxos_kv_project.Storage.Memory.{Hashing}

pub data KvCommand : Type 0 where
  put : String → String → KvCommand
  delete : String → KvCommand
  get : String → KvCommand

pub record Command : Type 0 where
  pub client_id : ℕ
  pub coordinator_id : ℕ
  pub id : ℕ
  pub private_id : ℕ
  pub deadline : ℕ
  pub kv_cmd : KvCommand

-- `impl Request for Command`
instance abbrev pub command_request : Request Command
command_request = record {
  get_deadline = λ c. c.deadline;
  set_deadline = λ c d. record c { deadline = d };
  get_id = λ c. c.private_id;
  client_id = λ c. c.client_id;
  get_deadline-set_deadline = λ c d. refl;
  get_id-set_deadline = λ c d. refl;
  client_id-set_deadline = λ c d. refl;
}

-- A hasher of the standard library, whose algorithm is not specified: `write_id` and `write_cmd`
-- stand for `usize::hash` and the derived `KVCommand::hash` on it.
pub record Hasher : Type 1 where
  pub State : Type 0
  pub new : State
  pub write_id : State → ℕ → State
  pub write_cmd : State → KvCommand → State
  pub finish : State → ℕ

-- `impl Hash for Command`: the id that the client chose and the operation, and nothing else
abbrev pub command_hashing : Hasher → Hashing Command
command_hashing h = record {
  State = h.State;
  new = h.new;
  hash = λ state c. h.write_cmd (h.write_id state c.id) c.kv_cmd;
  finish = h.finish;
}

-- What the key-value operation of a speculating leader gave: none without speculation, then what
-- `Database::handle_command` returned.
abbrev pub Speculation : Type 0
Speculation = Option (Option (Option String))

pub data RegistrationMessage : Type 0 where
  node_register : ℕ → RegistrationMessage
  client_register : RegistrationMessage

pub data ClusterMessage : Type 0 where
  omni_paxos_message : Message Command → ClusterMessage
  leader_start_signal : ℕ → ClusterMessage

pub data ClientMessage : Type 0 where
  append : ℕ → KvCommand → ClientMessage
  ack : Command → ℕ → ClientMessage

pub data ServerMessage : Type 0 where
  write : ℕ → ServerMessage
  read : ℕ → Option String → ServerMessage
  ack : Command → ℕ → Speculation → ℕ → ServerMessage
  start_signal : ℕ → ServerMessage

-- `ServerMessage::command_id`; none is the `unimplemented!()` of a start signal.
unfoldable pub command_id : ServerMessage → Option ℕ
command_id (write id) = some id
command_id (read id value) = some id
command_id (ServerMessage.ack c hash speculation last_idx) = some c.id
command_id (start_signal t) = none

pub data PrCommand : Type 0 where
  put : ℕ → ℕ × Speculation → PrCommand
  delete : ℕ → PrCommand
  get : ℕ → PrCommand
