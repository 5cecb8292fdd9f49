-- ===== src/Client/Requests.antt =====
-- What a client sends: its requests, numbered one after another.
use Prim.Native.Nat.{◌^◌}
use omnipaxos_kv_project.Prelude.{
  ℕ, ◌+◌, ◌≤◌, ◌<◌, ◌≡◌, refl, sym, ap, subst, ◌∙◌, inl, inr, Option, none, some, some-injective,
  some-ne-none, List, [], ◌∷◌, ◌++◌, String, Bool, true, false, Bool-cases, append_assoc,
  append-nil, arith, length, length-append, get_elem?, get_elem?-beyond, get_elem?-set_self,
}
use omnipaxos_kv_project.Prelude.Words.{add64_exact}
use omnipaxos_kv_project.Common.{ClientMessage, command_id}
use omnipaxos_kv_project.Network.{send}
use omnipaxos_kv_project.Client.{run_finished, request_count}
use omnipaxos_kv_project.Client.Network.{Network, ServerConnection, send_to}
use omnipaxos_kv_project.Client.Loop.{
  Client, RequestInterval, request, send_request, respond_to, handle_server_message, Running,
  Progress, running, finished, panicked, Event, message, request_tick, interval_tick,
  unless_finished, with_delay, next_interval, get_request_delay, guarded_request, step, continue,
  run_loop,
}

abbrev pub alive_at : Option (Option ServerConnection) → Bool
alive_at (some (some c)) = c.outgoing_messages.alive
alive_at _ = false

abbrev pub queue_at : Option (Option ServerConnection) → List ClientMessage
queue_at (some (some c)) = c.outgoing_messages.queue
queue_at _ = []

-- The slot of the server that the client sends to
abbrev pub slot_of : Client → Option (Option ServerConnection)
slot_of c = get_elem? c.network.server_connections c.active_server

-- A send to a live connection puts the message at the end of its queue.
send_to-slot :
    (n : Network) (to : ℕ) (msg : ClientMessage) (o : Option (Option ServerConnection))
    → get_elem? n.server_connections to ≡ o
    → alive_at o ≡ true
    → let slot = get_elem? (send_to n to msg).server_connections to in
      (alive_at slot ≡ true) × (queue_at slot ≡ queue_at o ++ msg ∷ [])
unfolding send_to send
send_to-slot n to msg none found alive = cc
send_to-slot n to msg (some none) found alive = cc
send_to-slot n to msg (some (some c)) found alive =
    let inside : to < length n.server_connections =
      ground (arith, found, get_elem?-beyond n.server_connections to) in
    let sent : ServerConnection = record {
      outgoing_messages = record { queue = c.outgoing_messages.queue ++ msg ∷ []; alive = true };
    } in
    let there = get_elem?-set_self n.server_connections to (some sent) inside in
    rw (found, alive, there) (refl, refl)

module _ (to_string : ℕ → String) where
  -- The requests from the id `next` on, for which of them are writes
  abbrev pub numbered : ℕ → List Bool → List ClientMessage
  numbered next [] = []
  numbered next (is_write ∷ ws) =
      ClientMessage.append next (request to_string next is_write) ∷ numbered (next + 1) ws

  -- From one client to a later one, whose connection still lives: what was queued between
  abbrev pub Sent : Client → Client → List Bool → Type 0
  Sent c c' ws =
      (alive_at (slot_of c') ≡ true)
      × (queue_at (slot_of c') ≡ queue_at (slot_of c) ++ numbered c.next_request_id ws)
      × (c'.next_request_id ≡ c.next_request_id + length ws)

  send_request-Sent :
      (c : Client) (is_write : Bool) (now : ℕ)
      → alive_at (slot_of c) ≡ true
      → c.next_request_id + 1 < 2 ^ 64
      → Sent c (send_request to_string c is_write now) (is_write ∷ [])
  unfolding send_request
  send_request-Sent c is_write now alive w =
      let msg =
        ClientMessage.append c.next_request_id (request to_string c.next_request_id is_write) in
      let (lives, queued) = send_to-slot c.network c.active_server msg (slot_of c) refl alive in
      (lives, queued, add64_exact c.next_request_id 1 w)

  respond_to-Sent :
      (c : Client) (o : Option ℕ) (now : ℕ)
      → alive_at (slot_of c) ≡ true
      → Sent c (respond_to c o now) []
  respond_to-Sent c none now alive = (alive, sym (append-nil (queue_at (slot_of c))), omega arith)
  respond_to-Sent c (some id) now alive =
      (alive, sym (append-nil (queue_at (slot_of c))), omega arith)

  numbered-append :
      (next : ℕ) (ws vs : List Bool)
      → numbered next (ws ++ vs) ≡ numbered next ws ++ numbered (next + length ws) vs
  numbered-append next [] vs = ap (λ k. numbered k vs) (omega arith)
  numbered-append next (is_write ∷ ws) vs =
      let msg = ClientMessage.append next (request to_string next is_write) in
      ap (λ l. msg ∷ l)
        (numbered-append (next + 1) ws vs
          ∙ ap (λ k. numbered (next + 1) ws ++ numbered k vs) (omega arith))

  Sent-trans :
      (c d e : Client) (ws vs : List Bool) → Sent c d ws → Sent d e vs → Sent c e (ws ++ vs)
  Sent-trans c d e ws vs (_, queued, next) (alive, queued', next') = (
    alive,
    queued'
        ∙ rw (queued, next, numbered-append c.next_request_id ws vs)
            (append_assoc (queue_at (slot_of c)) _ _),
    omega (arith, next, next', length-append ws vs),
  )

-- The client that a run comes to
abbrev pub reached : {F : Type 0} → Progress F → Option Client
reached (running r) = some r.client
reached (finished c) = some c
reached panicked = none

module _ {F : Type 0} (above : F → F → Bool) (to_string : ℕ → String) where
  -- A run that may continue has sent some requests; so has one that has finished.
  abbrev HasSent : Client → Progress F → ℕ → Type 0
  HasSent c result most =
      (c' : Client)
      → reached result ≡ some c'
      → (ws : List Bool) × Sent to_string c c' ws × (length ws ≤ most)

  same :
      (c d : Client) (result : Progress F) (most : ℕ)
      → reached result ≡ some d
      → Sent to_string c d []
      → HasSent c result most
  same c d result most at sent c' there =
      ([], subst (λ e. Sent to_string c e []) (some-injective (sym at ∙ there)) sent, omega arith)

  reached-unless_finished : (r : Running F) → reached (unless_finished r) ≡ some r.client
  reached-unless_finished r =
      elim (Bool-cases (run_finished r.client.final_request_count r.client.client_data)) [
        | inl e ↦ rw e refl
        | inr e ↦ rw e refl
      ]

  nothing_sent : (c : Client) → alive_at (slot_of c) ≡ true → Sent to_string c c []
  nothing_sent c alive = (alive, sym (append-nil (queue_at (slot_of c))), omega arith)

  guarded_request-HasSent :
      (r : Running F) (o : Option ℕ) (is_write : Bool) (now : ℕ)
      → alive_at (slot_of r.client) ≡ true
      → r.client.next_request_id + 1 < 2 ^ 64
      → HasSent r.client (running (guarded_request above to_string r o is_write now)) 1
  guarded_request-HasSent r none is_write now alive w = λ c' there.
      let sent = send_request-Sent to_string r.client is_write now alive w in
      (
        is_write ∷ [],
        subst (λ e. Sent to_string r.client e (is_write ∷ [])) (some-injective there) sent,
        omega arith,
      )
  guarded_request-HasSent r (some count) is_write now alive w =
      same r.client r.client (running r) 1 refl (nothing_sent r.client alive)

  with_delay-HasSent :
      (r : Running F) (i : RequestInterval F) (o : Option ℕ)
      → alive_at (slot_of r.client) ≡ true
      → HasSent r.client (with_delay r i o) 1
  with_delay-HasSent r i none alive = λ c' there. absurd (some-ne-none (sym there))
  with_delay-HasSent r i (some delay) alive =
      same r.client r.client (with_delay r i (some delay)) 1 refl (nothing_sent r.client alive)

  next_interval-HasSent :
      (r : Running F) (is : List (RequestInterval F))
      → alive_at (slot_of r.client) ≡ true
      → HasSent r.client (next_interval r is) 1
  next_interval-HasSent r [] alive =
      let c = r.client in
      let counted : Client = record c {
        final_request_count = some (request_count c.client_data);
      } in
      same c counted (next_interval r []) 1
        (reached-unless_finished (record r { client = counted })) (nothing_sent c alive)
  next_interval-HasSent r (i ∷ is) alive =
      with_delay-HasSent (record r { intervals = is }) i (get_request_delay i) alive

  step-HasSent :
      (r : Running F) (event : Event F)
      → alive_at (slot_of r.client) ≡ true
      → r.client.next_request_id + 1 < 2 ^ 64
      → HasSent r.client (step above to_string r event) 1
  unfolding step handle_server_message
  step-HasSent r (message msg now) alive w =
      let c = handle_server_message r.client msg now in
      same r.client c (unless_finished (record r { client = c })) 1
        (reached-unless_finished (record r { client = c }))
        (respond_to-Sent to_string r.client (command_id msg) now alive)
  step-HasSent r (request_tick drawn now) alive w =
      guarded_request-HasSent r r.client.final_request_count (above drawn r.read_ratio) now alive w
  step-HasSent r interval_tick alive w = next_interval-HasSent r r.intervals alive

  continue-HasSent :
      (c : Client) (rest : Running F → Progress F) (result : Progress F) (most : ℕ)
      → c.next_request_id + 1 + most < 2 ^ 64
      → HasSent c result 1
      → ((r : Running F)
          → alive_at (slot_of r.client) ≡ true
          → r.client.next_request_id + most < 2 ^ 64
          → HasSent r.client (rest r) most)
      → HasSent c (continue above to_string rest result) (1 + most)
  continue-HasSent c rest (running r) most w first later c' there =
      let (ws, sent, few) = first r.client refl in
      let (vs, sent', few') = later r sent.0 (omega (arith, sent.2)) c' there in
      (
        ws ++ vs,
        Sent-trans to_string c r.client c' ws vs sent sent',
        omega (arith, length-append ws vs),
      )
  continue-HasSent c rest (finished d) most w first later c' there =
      let (ws, sent, few) = first c' there in (ws, sent, omega arith)
  continue-HasSent c rest panicked most w first later c' there = absurd (some-ne-none (sym there))

  -- Where the connection of a client to its server lives, and its request ids do not reach 2 ^ 64: in
  -- any run of its main loop that does not panic, whatever messages, request ticks and ends of
  -- intervals come in whatever order, the messages queued for its server are those that were queued
  -- before, followed by appends alone, at most one for each event, with the request ids in order from
  -- the next one on without a gap, each of which writes its own id under its own id or reads it; and
  -- the next request id is as many greater as there are of them.
  pub run_loop-HasSent :
      (r : Running F) (events : List (Event F)) (c' : Client)
      → alive_at (slot_of r.client) ≡ true
      → r.client.next_request_id + length events < 2 ^ 64
      → reached (run_loop above to_string r events) ≡ some c'
      → (ws : List Bool) × Sent to_string r.client c' ws × (length ws ≤ length events)
  unfolding run_loop
  run_loop-HasSent r [] c' alive w there =
      same r.client r.client (running r) 0 refl (nothing_sent r.client alive) c' there
  run_loop-HasSent r (event ∷ events) c' alive w there =
      let (ws, sent, few) =
        continue-HasSent r.client (λ r'. run_loop above to_string r' events)
          (step above to_string r event) (length events) (omega arith)
          (step-HasSent r event alive (omega arith))
          (λ r' alive' w' d at. run_loop-HasSent r' events d alive' w' at) c' there in
      (ws, sent, omega arith)
