-- ===== src/Bulk.antt =====
-- Bulk send jobs: internal/gateway/bulk.go. The data, and the tables gw_bulk_jobs and
-- gw_bulk_messages. Texts that stand for a closed set of states are data types.
pub mod Examples
pub mod Store
pub mod Load
pub mod Runner
pub mod Delay
pub mod Counts
pub mod Completion
pub mod Rows
pub mod Crash
pub mod Template
pub mod Fuel
pub mod Matched
pub mod Rendered
pub mod Submit
pub mod Submitted
pub mod Resume
pub mod Recover
pub mod Restarts
pub mod Started
use wa_gateway.Base.{
  ℕ, zero, suc, ◌+◌, String, Bool, true, false, List, [], ◌∷◌, ℤ, Assoc, if◌then◌else◌, filter_if,
}

pub record BulkMessage : Type 0 where
  pub to : String
  pub text : String
  pub vars : Assoc String

pub record BulkRequest : Type 0 where
  pub session : String
  pub to : List String
  pub text : String
  pub template : String
  pub messages : List BulkMessage
  pub min_delay_ms : ℤ
  pub max_delay_ms : ℤ

-- the status of one recipient; `unset` is the zero value of a result that no row filled
pub data SendStatus : Type 0 where
  unset pending sent failed : SendStatus

pub data JobStatus : Type 0 where
  running completed cancelled interrupted : JobStatus

pub record BulkResult : Type 0 where
  pub to : String
  pub status : SendStatus
  pub message_id : String
  pub error : String

pub record BulkJob : Type 0 where
  pub id : String
  pub session : String
  pub status : JobStatus
  pub total : ℕ
  pub sent : ℕ
  pub failed : ℕ
  pub started_at : ℕ
  pub finished_at : ℕ
  pub results : List BulkResult

pub record BulkItem : Type 0 where
  pub idx : ℕ
  pub to : String
  pub text : String

abbrev pub is_pending : SendStatus → Bool
is_pending pending = true
is_pending _ = false

abbrev pub is_sent : SendStatus → Bool
is_sent sent = true
is_sent _ = false

abbrev pub is_failed : SendStatus → Bool
is_failed failed = true
is_failed _ = false

abbrev pub is_running : JobStatus → Bool
is_running running = true
is_running _ = false

-- BulkJob.Pending
unfoldable pub pending_results : BulkJob → List BulkResult
pending_results j = filter_if (λ r. is_pending r.status) j.results

-- a row of gw_bulk_jobs
pub record JobRow : Type 0 where
  pub id : String
  pub session : String
  pub status : JobStatus
  pub total : ℕ
  pub sent : ℕ
  pub failed : ℕ
  pub started_at : ℕ
  pub finished_at : ℕ
  pub min_delay_ms : ℤ
  pub max_delay_ms : ℤ

-- a row of gw_bulk_messages
pub record MessageRow : Type 0 where
  pub job_id : String
  pub idx : ℕ
  pub to : String
  pub text : String
  pub status : SendStatus
  pub message_id : String
  pub error : String

pub record BulkDb : Type 0 where
  pub jobs : List JobRow
  pub messages : List MessageRow
