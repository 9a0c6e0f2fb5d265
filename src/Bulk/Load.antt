-- ===== src/Bulk/Load.antt =====
-- loadResumable and loadJob of internal/gateway/bulk.go, with every row read without error.
use wa_gateway.Base.{
  ℕ, zero, suc, String, Bool, true, false, ◌==◌, List, [], ◌∷◌, ◌++◌, Option, none, some, ℤ, ltb,
  leb, if◌then◌else◌, set, length,
}
use wa_gateway.Bulk.{
  BulkResult, BulkJob, BulkItem, JobRow, MessageRow, BulkDb, SendStatus, unset, pending, sent,
  failed, JobStatus, running, completed, cancelled, interrupted,
}
use wa_gateway.Bulk.Store.{rows_of_job}

pub record ResumableJob : Type 0 where
  pub job : BulkJob
  pub pending : List BulkItem
  pub min_delay : ℤ
  pub max_delay : ℤ

abbrev pub row_result : MessageRow → BulkResult
row_result r = record { to = r.to; status = r.status; message_id = r.message_id; error = r.error }

abbrev pub row_item : MessageRow → BulkItem
row_item r = record { idx = r.idx; to = r.to; text = r.text }

-- the `switch status` on one row
abbrev pub tally : SendStatus → MessageRow → BulkJob × List BulkItem → BulkJob × List BulkItem
tally sent r (job, items) = (record job { sent = suc job.sent }, items)
tally failed r (job, items) = (record job { failed = suc job.failed }, items)
tally pending r (job, items) = (job, items ++ row_item r ∷ [])
tally unset r (job, items) = (job, items)

-- one row: its result is stored, if its number is in range, and it is tallied
abbrev pub read_row : MessageRow → BulkJob × List BulkItem → BulkJob × List BulkItem
read_row r (job, items) = tally r.status r (
  if ltb r.idx (length job.results)
      then record job { results = set job.results r.idx (row_result r) }
      else job,
  items,
)

unfoldable pub read_rows : List MessageRow → BulkJob × List BulkItem → BulkJob × List BulkItem
read_rows [] acc = acc
read_rows (r ∷ rows) acc = read_rows rows (read_row r acc)

abbrev pub no_results : ℕ → List BulkResult
no_results zero = []
no_results (suc n) = record { to = ""; status = unset; message_id = ""; error = "" } ∷ no_results n

unfoldable pub load_head : BulkDb → JobRow → ResumableJob
load_head db h =
    let job : BulkJob = record {
      id = h.id;
      session = h.session;
      status = running;
      total = h.total;
      sent = 0;
      failed = 0;
      started_at = h.started_at;
      finished_at = 0;
      results = no_results h.total;
    } in
    let (read, items) = read_rows (rows_of_job h.id db.messages) (job, []) in
    record { job = read; pending = items; min_delay = h.min_delay_ms; max_delay = h.max_delay_ms }

-- status IN ('running','interrupted')
abbrev pub is_unfinished : JobStatus → Bool
is_unfinished running = true
is_unfinished interrupted = true
is_unfinished completed = false
is_unfinished cancelled = false

-- ORDER BY started_at ASC
unfoldable pub insert_by_start : JobRow → List JobRow → List JobRow
insert_by_start r [] = r ∷ []
insert_by_start r (q ∷ rows) =
    if leb r.started_at q.started_at then r ∷ q ∷ rows else q ∷ insert_by_start r rows

unfoldable pub unfinished_rows : List JobRow → List JobRow
unfinished_rows [] = []
unfinished_rows (r ∷ rows) =
    let rest = unfinished_rows rows in
    if is_unfinished r.status then insert_by_start r rest else rest

unfoldable pub load_heads : BulkDb → List JobRow → List ResumableJob
load_heads db [] = []
load_heads db (h ∷ heads) = load_head db h ∷ load_heads db heads

unfoldable pub load_resumable : BulkDb → List ResumableJob
load_resumable db = load_heads db (unfinished_rows db.jobs)

unfoldable pub find_job : String → List JobRow → Option JobRow
find_job id [] = none
find_job id (r ∷ rows) = if r.id == id then some r else find_job id rows

-- the loop of loadJob: results, sent, failed
abbrev pub count_row : SendStatus → ℕ × ℕ → ℕ × ℕ
count_row sent (s, f) = (suc s, f)
count_row failed (s, f) = (s, suc f)
count_row _ (s, f) = (s, f)

unfoldable pub count_rows : List MessageRow → ℕ × ℕ → ℕ × ℕ
count_rows [] acc = acc
count_rows (r ∷ rows) acc = count_rows rows (count_row r.status acc)

abbrev row_results : List MessageRow → List BulkResult
row_results [] = []
row_results (r ∷ rows) = row_result r ∷ row_results rows

-- the counters of the row stand only where there are no messages
abbrev pub recount : List MessageRow → ℕ × ℕ → ℕ × ℕ
recount [] stored = stored
recount (r ∷ rows) stored = count_rows (r ∷ rows) (0, 0)

unfoldable pub load_job : BulkDb → String → Option BulkJob
load_job db id = elim (find_job id db.jobs) [
  | none ↦ none
  | some h ↦
      let rows = rows_of_job id db.messages in
      let (s, f) = recount rows (h.sent, h.failed) in
      some (record {
        id = h.id;
        session = h.session;
        status = h.status;
        total = h.total;
        sent = s;
        failed = f;
        started_at = h.started_at;
        finished_at = h.finished_at;
        results = row_results rows;
      })
]
