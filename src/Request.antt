-- ===== src/Request.antt =====
-- `Request` of crates/custom-paxos/omnipaxos/src/buffers.rs: what the buffers need of an entry.
use omnipaxos_kv_project.Prelude.{ℕ, ◌≡◌}

-- The laws say that `set_deadline` sets the deadline, and neither of the ids.
pub record Request {ℓ} (R : Type ℓ) : Type ℓ where
  pub get_deadline : R → ℕ
  pub set_deadline : R → ℕ → R
  pub get_id : R → ℕ
  pub client_id : R → ℕ
  pub get_deadline-set_deadline : (r : R) (d : ℕ) → get_deadline (set_deadline r d) ≡ d
  pub get_id-set_deadline : (r : R) (d : ℕ) → get_id (set_deadline r d) ≡ get_id r
  pub client_id-set_deadline : (r : R) (d : ℕ) → client_id (set_deadline r d) ≡ client_id r
