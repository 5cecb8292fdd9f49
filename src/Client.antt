-- ===== src/Client.antt =====
-- What a client records of its requests: src/client/data_collection.rs, and `run_finished` of
-- src/client/client.rs. The time of a call is an argument.
pub mod Responses
pub mod Network
pub mod Loop
pub mod Requests
use omnipaxos_kv_project.Prelude.{
  ℕ, zero, suc, Option, none, some, List, [], ◌∷◌, ◌++◌, Bool, false, leb, length, set, get_or,
}
use omnipaxos_kv_project.Prelude.Words.{add64}

pub record RequestData : Type 0 where
  pub request_time : ℕ
  pub write : Bool
  pub response_time : Option ℕ

-- `RequestData::default()`
abbrev pub default : RequestData
default = record { request_time = 0; write = false; response_time = none }

pub record ClientData : Type 0 where
  pub request_data : List RequestData
  pub response_count : ℕ

abbrev pub new : ClientData
new = record { request_data = []; response_count = 0 }

unfoldable pub new_request : ClientData → Bool → ℕ → ClientData
new_request c is_write now = record c {
  request_data =
      c.request_data ++ record { request_time = now; write = is_write; response_time = none } ∷ [];
}

-- `Vec::resize`
abbrev pub resize {ℓ} : {A : Type ℓ} → List A → ℕ → A → List A
resize xs zero value = []
resize [] (suc n) value = value ∷ resize [] n value
resize (x ∷ xs) (suc n) value = x ∷ resize xs n value

unfoldable pub new_response : ClientData → ℕ → ℕ → ClientData
new_response c command_id now =
    let resized = resize c.request_data (add64 command_id 1) default in
    record {
      request_data =
          set resized command_id
            (record (get_or resized command_id default) { response_time = some now });
      response_count = add64 c.response_count 1;
    }

abbrev pub request_count : ClientData → ℕ
request_count c = length c.request_data

-- `run_finished`, for the `final_request_count` of the client
unfoldable pub run_finished : Option ℕ → ClientData → Bool
run_finished none c = false
run_finished (some count) c = leb count (request_count c)
