-- ===== src/Tests/Requesting.antt =====
-- The theorems on a client: its data, at three requests of which the first is answered, and a run.
use omnipaxos_kv_project.Common.{ServerMessage, command_id}
use omnipaxos_kv_project.Client.Network.{Network, new_connection}
use omnipaxos_kv_project.Client.Loop
use omnipaxos_kv_project.Client.Loop.{
  Client, Running, message, request_tick, interval_tick, run_loop,
}
use omnipaxos_kv_project.Client.Requests.{Sent, reached, run_loop-HasSent}
use omnipaxos_kv_project.Prelude.{
  ℕ, ◌<◌, ◌≤◌, ◌≡◌, ◌≢◌, refl, Option, none, some, List, [], ◌∷◌, String, Bool, true, false, ltb,
  ◌==◌, length, get_elem?, arith, if◌then◌else◌,
}
use omnipaxos_kv_project.Client.{ClientData, new, run_finished, new_response, request_count}
use omnipaxos_kv_project.Client.Responses.{new_response-request_data}

abbrev three_sent : ClientData
three_sent = record {
  request_data =
      record { request_time = 1; write = true; response_time = none }
      ∷ record { request_time = 2; write = false; response_time = none }
      ∷ record { request_time = 3; write = true; response_time = none }
      ∷ [];
  response_count = 0;
}

new_response-request_data_example :
    (request_count (new_response three_sent 0 9) ≡ 1)
    × ((i : ℕ)
        → i < 3
        → 0 ≢ i
        → get_elem? (new_response three_sent 0 9).request_data i
          ≡ (if ltb i 1 then get_elem? three_sent.request_data i else none))
new_response-request_data_example = new_response-request_data three_sent 0 9 (ground arith)

abbrev digits : ℕ → String
digits n = if n == 0 then "0" else "1"

abbrev connected : Network
connected = record { server_connections = none ∷ some new_connection ∷ [] }

-- A client of the server 1 in an interval with one more behind it
abbrev started : Running ℕ
started = record {
  client = record {
    id = 1;
    network = connected;
    client_data = new;
    active_server = 1;
    final_request_count = none;
    next_request_id = 0;
  };
  read_ratio = 5;
  request_delay = 100;
  intervals = record { duration_sec = 1; requests_per_sec = 10; read_ratio = 2 } ∷ [];
}

abbrev happenings : List (Loop.Event ℕ)
happenings =
    request_tick 7 1000
    ∷ message (ServerMessage.write 0) 1010
    ∷ interval_tick
    ∷ request_tick 1 1100
    ∷ []

abbrev client_or_same : Client → Option Client → Client
client_or_same c none = c
client_or_same c (some c') = c'

abbrev after_all : Client
after_all =
    client_or_same started.client
      (reached (run_loop (λ drawn ratio. ltb ratio drawn) digits started happenings))

run_loop-HasSent_example :
    (ws : List Bool) × Sent digits started.client after_all ws × (length ws ≤ 4)
unfolding run_loop run_finished command_id
run_loop-HasSent_example =
    run_loop-HasSent (λ drawn ratio. ltb ratio drawn) digits started happenings after_all refl
      (ground arith) refl
