-- ===== src/Network.antt =====
-- What the networks of src/server/network.rs and src/client/network.rs share: the channel between
-- a connection and its actors, and the loops of the actors. A channel of tokio is the queue of the
-- messages that are not yet received, with whether its receiver still exists. What a framed TCP
-- stream does is a parameter (`Sink`), and what a stream delivers is an argument.
use omnipaxos_kv_project.Prelude.{
  ℕ, zero, suc, Option, none, some, List, [], ◌∷◌, ◌++◌, Bool, true, false, take, drop,
  if◌then◌else◌,
}

pub record Channel {ℓ} (M : Type ℓ) : Type ℓ where
  pub queue : List M
  pub alive : Bool

-- `Sender::send`, none for its error, which is that the receiver is gone
unfoldable pub send {ℓ} : {M : Type ℓ} → Channel M → M → Option (Channel M)
send c m = if c.alive then some (record c { queue = c.queue ++ m ∷ [] }) else none

-- `Receiver::recv_many`: at most `limit` messages, and what is left in the channel
abbrev pub recv_many {ℓ} : {M : Type ℓ} → ℕ → List M → List M × List M
recv_many limit queue = (take limit queue, drop limit queue)

-- `SinkExt`: to feed a message to the stream and to flush it, none for an error
pub record Sink (M : Type 0) : Type 1 where
  pub Wire : Type 0
  pub feed : Wire → M → Option Wire
  pub flush : Wire → Option Wire

-- A writer actor: its stream, what it has not received yet, and whether its task still runs
pub record Writer (W M : Type 0) : Type 0 where
  pub wire : W
  pub queue : List M
  pub running : Bool

module _ {M : Type 0} (k : Sink M) where
  -- The `for` loop of `PeerConnection` and of the client's `ServerConnection`: an error ends it,
  -- and `drain` drops the rest of the batch.
  unfoldable pub feed_until_error : k.Wire → List M → k.Wire
  feed_until_error w [] = w
  feed_until_error w (m ∷ ms) = elim (k.feed w m) [ none ↦ w | some w' ↦ feed_until_error w' ms ]

  -- The `for` loop of `ClientConnection`: an error ends the task.
  unfoldable pub feed_all : k.Wire → List M → k.Wire × Bool
  feed_all w [] = (w, true)
  feed_all w (m ∷ ms) = elim (k.feed w m) [ none ↦ (w, false) | some w' ↦ feed_all w' ms ]

  -- The end of a round: a flush that fails ends the task.
  abbrev pub flushed : k.Wire → List M → Option k.Wire → Writer k.Wire M
  flushed w queue none = record { wire = w; queue = queue; running = false }
  flushed w queue (some w') = record { wire = w'; queue = queue; running = true }

  -- A round of the writer actor of `PeerConnection` and of `ServerConnection`
  unfoldable pub write_peer : ℕ → Writer k.Wire M → Writer k.Wire M
  unfolding feed_until_error
  write_peer limit a =
      let (batch, queue) = recv_many limit a.queue in
      let w = feed_until_error a.wire batch in flushed w queue (k.flush w)

  -- A round of the writer actor of `ClientConnection`
  unfoldable pub write_client : ℕ → Writer k.Wire M → Writer k.Wire M
  unfolding feed_all
  write_client limit a =
      let (batch, queue) = recv_many limit a.queue in
      let (w, fed) = feed_all a.wire batch in
      if fed
      then flushed w queue (k.flush w)
      else record { wire = w; queue = queue; running = false }

  -- The `while` loop of the actor with fuel, up to where it waits for messages or has ended
  unfoldable pub write_loop :
      (Writer k.Wire M → Writer k.Wire M) → ℕ → Writer k.Wire M → Writer k.Wire M
  write_loop round zero a = a
  write_loop round (suc fuel) a = elim a.running [
    | false ↦ a
    | true ↦ elim a.queue [ [] ↦ a | _ ∷ _ ↦ write_loop round fuel (round a) ]
  ]

-- A reader actor hands on what its stream delivers with the id of the connection; a message that
-- is not deserialized (none) is left out. The senders that it uses do not fail, since their
-- receivers are in the server.
unfoldable pub received {ℓ} : {M : Type ℓ} → ℕ → List (Option M) → List (ℕ × M)
received id [] = []
received id (none ∷ delivered) = received id delivered
received id (some m ∷ delivered) = (id, m) ∷ received id delivered
