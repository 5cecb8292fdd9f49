-- ===== src/Client/Loop.antt =====
-- `Client` of src/client/client.rs, and the intervals of src/client/configs.rs. What the source
-- takes from elsewhere is a parameter: the floating-point numbers of the ratios with their order,
-- and how a number is written as text. A random number and a time come with the event that uses
-- them. A result of none is a panic. A run that ends shuts its network down and saves its results,
-- of which the former is `Network.shutdown`.
use omnipaxos_kv_project.Prelude.{
  ℕ, ◌/◌, ◌*◌, Option, none, some, List, [], ◌∷◌, String, Bool, true, false, ◌==◌, if◌then◌else◌,
}
use omnipaxos_kv_project.Prelude.Words.{add64}
use omnipaxos_kv_project.Common.{KvCommand, ClientMessage, ServerMessage, start_signal, command_id}
use omnipaxos_kv_project.Client.{
  ClientData, new as new_client_data, new_request, new_response, request_count, run_finished,
}
use omnipaxos_kv_project.Client.Network.{Network, new as new_network, send_to}

pub record RequestInterval (F : Type 0) : Type 0 where
  pub duration_sec : ℕ
  pub requests_per_sec : ℕ
  pub read_ratio : F

-- In milliseconds
abbrev pub get_interval_duration : {F : Type 0} → RequestInterval F → ℕ
get_interval_duration i = i.duration_sec * 1000

-- In milliseconds; the panic is that of `assert!`.
unfoldable pub get_request_delay : {F : Type 0} → RequestInterval F → Option ℕ
get_request_delay i =
    let delay_ms = 1000 / i.requests_per_sec in
    if i.requests_per_sec == 0
    then some 999_999_000
    else if delay_ms == 0
    then none
    else some delay_ms

pub record Client : Type 0 where
  pub id : ℕ
  pub network : Network
  pub client_data : ClientData
  pub active_server : ℕ
  pub final_request_count : Option ℕ
  pub next_request_id : ℕ

abbrev pub client_of : ℕ → Option Network → Option Client
client_of server_id none = none
client_of server_id (some network) = some (record {
  id = server_id;
  network = network;
  client_data = new_client_data;
  active_server = server_id;
  final_request_count = none;
  next_request_id = 0;
})

-- `Client::new`, for whether the connection to the server succeeds
unfoldable pub new_client : ℕ → Bool → Option Client
new_client server_id connects = client_of server_id (new_network ((server_id, connects) ∷ []))

abbrev pub respond_to : Client → Option ℕ → ℕ → Client
respond_to c none now = c
respond_to c (some cmd_id) now = record c { client_data = new_response c.client_data cmd_id now }

-- A start signal, which has no command id, changes nothing.
unfoldable pub handle_server_message : Client → ServerMessage → ℕ → Client
handle_server_message c msg now = respond_to c (command_id msg) now

module _ (to_string : ℕ → String) where
  -- The command of a request
  abbrev pub request : ℕ → Bool → KvCommand
  request id true = KvCommand.put (to_string id) (to_string id)
  request id false = KvCommand.get (to_string id)

  unfoldable pub send_request : Client → Bool → ℕ → Client
  send_request c is_write now =
      let message = ClientMessage.append c.next_request_id (request c.next_request_id is_write) in
      record c {
        network = send_to c.network c.active_server message;
        client_data = new_request c.client_data is_write now;
        next_request_id = add64 c.next_request_id 1;
      }

-- The variables of `run` beside the client
pub record Running (F : Type 0) : Type 0 where
  pub client : Client
  pub read_ratio : F
  pub request_delay : ℕ
  pub intervals : List (RequestInterval F)

-- How `run` stands
pub data Progress (F : Type 0) : Type 0 where
  running : Running F → Progress F
  finished : Client → Progress F
  panicked : Progress F

-- What `select!` takes next, with the random number and the time that are drawn
pub data Event (F : Type 0) : Type 0 where
  message : ServerMessage → ℕ → Event F
  request_tick : F → ℕ → Event F
  interval_tick : Event F

module _ {F : Type 0} where
  -- `break` where the run is finished
  abbrev pub unless_finished : Running F → Progress F
  unless_finished r =
      if run_finished r.client.final_request_count r.client.client_data
      then finished r.client
      else running r

  abbrev pub with_delay : Running F → RequestInterval F → Option ℕ → Progress F
  with_delay r i none = panicked
  with_delay r i (some delay) =
      running (record r { read_ratio = i.read_ratio; request_delay = delay })

  -- The next interval, or the end of the last one
  abbrev pub next_interval : Running F → List (RequestInterval F) → Progress F
  next_interval r (i ∷ intervals) =
      with_delay (record r { intervals = intervals }) i (get_request_delay i)
  next_interval r [] =
      let c = r.client in
      unless_finished (record r {
        client = record c { final_request_count = some (request_count c.client_data) };
      })

module _ {F : Type 0} (above : F → F → Bool) (to_string : ℕ → String) where
  -- The guard of the branch: no requests once the final count is set
  abbrev pub guarded_request : Running F → Option ℕ → Bool → ℕ → Running F
  guarded_request r none is_write now = record r {
    client = send_request to_string r.client is_write now;
  }
  guarded_request r (some count) is_write now = r

  -- A round of the main loop
  unfoldable pub step : Running F → Event F → Progress F
  unfolding handle_server_message send_request get_request_delay
  step r (message msg now) =
      unless_finished (record r { client = handle_server_message r.client msg now })
  step r (request_tick drawn now) =
      running (guarded_request r r.client.final_request_count (above drawn r.read_ratio) now)
  step r interval_tick = next_interval r r.intervals

  abbrev pub continue : (Running F → Progress F) → Progress F → Progress F
  continue rest (running r) = rest r
  continue rest (finished c) = finished c
  continue rest panicked = panicked

  unfoldable pub run_loop : Running F → List (Event F) → Progress F
  unfolding step
  run_loop r [] = running r
  run_loop r (event ∷ events) = continue (λ r'. run_loop r' events) (step r event)

  abbrev pub first_interval :
      Client → RequestInterval F → List (RequestInterval F) → Option ℕ → Progress F
  first_interval c i intervals none = panicked
  first_interval c i intervals (some delay) = running (record {
    client = c;
    read_ratio = i.read_ratio;
    request_delay = delay;
    intervals = intervals;
  })

  -- The start of `run`, for the message that it waits for, without the wait for the start time.
  -- Without intervals it ends early.
  unfoldable pub start : Client → List (RequestInterval F) → Option ServerMessage → Progress F
  start c [] (some (start_signal time)) = finished c
  start c (i ∷ intervals) (some (start_signal time)) =
      first_interval c i intervals (get_request_delay i)
  start c intervals _ = panicked
