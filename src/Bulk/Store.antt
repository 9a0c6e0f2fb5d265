-- ===== src/Bulk/Store.antt =====
-- bulkStore of internal/gateway/bulk.go: what each statement does to the two tables. Whether a
-- statement goes through is an argument.
use wa_gateway.Base.{
  ℕ, suc, String, Bool, false, not, ◌&&◌, ◌||◌, ◌==◌, List, [], ◌∷◌, ◌++◌, Option, none, some, ℤ,
  eqb, leb, if◌then◌else◌,
}
use wa_gateway.Bulk.{
  BulkMessage, BulkResult, BulkJob, JobRow, MessageRow, BulkDb, pending, interrupted, is_running,
}

abbrev pub job_known : String → List JobRow → Bool
job_known id [] = false
job_known id (r ∷ rows) = r.id == id || job_known id rows

-- the rows that saveJob inserts, all pending, numbered from `i`
unfoldable pub message_rows : String → ℕ → List BulkMessage → List MessageRow
message_rows id i [] = []
message_rows id i (m ∷ msgs) =
    record {
      job_id = id;
      idx = i;
      to = m.to;
      text = m.text;
      status = pending;
      message_id = "";
      error = "";
    }
    ∷ message_rows id (suc i) msgs

-- saveJob: one transaction, so a failure leaves no row
unfoldable pub save_job : Bool → BulkJob → List BulkMessage → ℤ → ℤ → BulkDb → Option BulkDb
save_job commits job msgs min_d max_d db =
    if not commits || job_known job.id db.jobs
    then none
    else some (record {
      jobs =
          db.jobs
          ++ record {
            id = job.id;
            session = job.session;
            status = job.status;
            total = job.total;
            sent = 0;
            failed = 0;
            started_at = job.started_at;
            finished_at = 0;
            min_delay_ms = min_d;
            max_delay_ms = max_d;
          }
            ∷ [];
      messages = db.messages ++ message_rows job.id 0 msgs;
    })

abbrev pub is_row : String → ℕ → MessageRow → Bool
is_row id idx r = r.job_id == id && eqb r.idx idx

abbrev pub with_result : BulkResult → MessageRow → MessageRow
with_result res r = record r { status = res.status; message_id = res.message_id; error = res.error }

unfoldable pub update_rows : String → ℕ → BulkResult → List MessageRow → List MessageRow
update_rows id idx res [] = []
update_rows id idx res (r ∷ rows) =
    (if is_row id idx r then with_result res r else r) ∷ update_rows id idx res rows

-- updateMessage; a failed write is logged and dropped
abbrev pub update_message : Bool → String → ℕ → BulkResult → BulkDb → BulkDb
update_message writes id idx res db =
    if writes then record db { messages = update_rows id idx res db.messages } else db

abbrev with_job : BulkJob → JobRow → JobRow
with_job job r = record r {
  status = job.status;
  sent = job.sent;
  failed = job.failed;
  finished_at = job.finished_at;
}

unfoldable pub update_job_rows : BulkJob → List JobRow → List JobRow
update_job_rows job [] = []
update_job_rows job (r ∷ rows) =
    (if r.id == job.id then with_job job r else r) ∷ update_job_rows job rows

-- updateJob
abbrev pub update_job : Bool → BulkJob → BulkDb → BulkDb
update_job writes job db = if writes then record db { jobs = update_job_rows job db.jobs } else db

unfoldable pub interrupt_rows : ℕ → List JobRow → List JobRow
interrupt_rows now [] = []
interrupt_rows now (r ∷ rows) =
    (if is_running r.status then record r { status = interrupted; finished_at = now } else r)
    ∷ interrupt_rows now rows

-- markInterrupted
abbrev pub mark_interrupted : Bool → ℕ → BulkDb → BulkDb
mark_interrupted writes now db =
    if writes then record db { jobs = interrupt_rows now db.jobs } else db

-- SELECT … FROM gw_bulk_messages WHERE job_id = ? ORDER BY idx
unfoldable pub insert_by_idx : MessageRow → List MessageRow → List MessageRow
insert_by_idx r [] = r ∷ []
insert_by_idx r (q ∷ rows) = if leb r.idx q.idx then r ∷ q ∷ rows else q ∷ insert_by_idx r rows

unfoldable pub rows_of_job : String → List MessageRow → List MessageRow
rows_of_job id [] = []
rows_of_job id (r ∷ rows) =
    let rest = rows_of_job id rows in if r.job_id == id then insert_by_idx r rest else rest
