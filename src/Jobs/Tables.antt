-- ===== src/Jobs/Tables.antt =====
-- The tables `jobs` and `job_attempts`, with their constraints, and the maintenance lock of `settings`, in
-- packages/database/src/migrations.ts and packages/database/src/index.ts.
use infinite_context.Prelude.{
  ℕ, String, Option, none, some, Bool, true, false, List, ◌&&◌, ◌==◌, str_eq,
}

pub data JobStatus : Type 0 where
  queued running complete failed cancelled : JobStatus

pub record Job : Type 0 where
  pub id : String
  pub job_type : String
  pub idempotency_key : String
  pub payload : String
  pub status : JobStatus
  pub priority : ℕ
  pub attempts : ℕ
  pub maximum_attempts : ℕ
  pub available_at : ℕ
  pub lease_owner : Option String
  pub lease_expires_at : Option ℕ
  pub heartbeat_at : Option ℕ
  pub result : Option String
  pub last_error_code : Option String
  pub created_at : ℕ
  pub updated_at : ℕ

pub data AttemptStatus : Type 0 where
  ongoing succeeded broken : AttemptStatus

pub record Attempt : Type 0 where
  pub job_id : String
  pub attempt_number : ℕ
  pub worker_id : String
  pub started_at : ℕ
  pub completed_at : Option ℕ
  pub status : AttemptStatus
  pub error_code : Option String

pub record Queue : Type 0 where
  pub jobs : List Job
  pub attempts : List Attempt
  pub maintenance_locked : Bool

-- What the tables refuse: a second row of a key.
pub data Error : Type 0 where
  id_taken attempt_taken : Error

abbrev pub is_queued : JobStatus → Bool
is_queued queued = true
is_queued _ = false

abbrev pub is_running : JobStatus → Bool
is_running running = true
is_running _ = false

abbrev pub is_failed : JobStatus → Bool
is_failed failed = true
is_failed _ = false

abbrev pub has_id : String → Job → Bool
has_id id j = str_eq j.id id

-- `lease_owner = ?`, which `NULL` does not satisfy.
abbrev pub is_owned_by : String → Job → Bool
is_owned_by worker j = elim j.lease_owner [ none ↦ false | some w ↦ str_eq w worker ]

abbrev pub is_attempt : String → ℕ → Attempt → Bool
is_attempt id n a = str_eq a.job_id id && (a.attempt_number == n)
