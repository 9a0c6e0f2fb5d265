-- ===== src/Bulk/Runner.antt =====
-- run, sleepJitter and finish of internal/gateway/bulk.go, for one job. The job in memory and the
-- database change together; what the world answers is an argument.
use wa_gateway.Base.{
  ℕ, suc, ◌+◌, ◌%◌, ◌*◌, String, Bool, true, List, [], ◌∷◌, Result, ok, err, ℤ, is_positive, ltb_ℤ,
  add_ℕ, distance, not, ltb, length, set, if◌then◌else◌,
}
use wa_gateway.Bulk.{
  BulkResult, BulkJob, BulkItem, BulkDb, sent, failed, JobStatus, completed, interrupted,
  is_running, is_sent,
}
use wa_gateway.Bulk.Store.{update_message, update_job}

-- What happens at the n-th item of a run.
pub record RunWorld : Type 0 where
  -- the quit channel is closed when the item is about to be sent
  pub quits : ℕ → Bool
  -- the session is found and SendText returns this: the message's id, or an error
  pub sends : ℕ → BulkItem → Result String String
  -- the two random bytes of sleepJitter, and whether the quit channel closes during the sleep
  pub random : ℕ → ℕ × ℕ
  pub wakes : ℕ → Bool
  -- the UPDATE of the message's row goes through
  pub writes : ℕ → Bool
  -- the UPDATE of the job's row at the end goes through, and the time of it
  pub writes_job : Bool
  pub now : ℕ

pub record RunState : Type 0 where
  pub job : BulkJob
  pub db : BulkDb

abbrev pub send_result : BulkItem → Result String String → BulkResult
send_result it (ok id) = record { to = it.to; status = sent; message_id = id; error = "" }
send_result it (err e) = record { to = it.to; status = failed; message_id = ""; error = e }

-- the counters and the result in memory
abbrev pub record_result : BulkItem → BulkResult → BulkJob → BulkJob
record_result it res job =
    let stored = record job {
      results = if ltb it.idx (length job.results) then set job.results it.idx res else job.results;
    } in
    if is_sent res.status
    then record stored { sent = suc job.sent }
    else record stored { failed = suc job.failed }

unfoldable pub attempt : RunWorld → ℕ → BulkItem → RunState → RunState
attempt w n it st =
    let res = send_result it (w.sends n it) in
    record {
      job = record_result it res st.job;
      db = update_message (w.writes n) st.job.id it.idx res st.db;
    }

-- the delay in milliseconds
unfoldable pub jitter : ℕ × ℕ → ℤ → ℤ → ℤ
jitter (hi, lo) min_d max_d =
    if ltb_ℤ min_d max_d then add_ℕ min_d ((hi * 256 + lo) % suc (distance max_d min_d)) else min_d

-- sleepJitter: false if the quit channel closes first
abbrev pub sleep_jitter : RunWorld → ℕ → ℤ → ℤ → Bool
sleep_jitter w n min_d max_d =
    if not (is_positive (jitter (w.random n) min_d max_d)) then true else w.wakes n

unfoldable pub finish : RunWorld → JobStatus → RunState → RunState
finish w status st =
    let job =
      if is_running st.job.status
      then record st.job { status = status; finished_at = w.now }
      else st.job in
    record { job = job; db = update_job w.writes_job job st.db }

-- the loop, from the n-th item; no delay follows the last one
unfoldable pub run : RunWorld → ℤ → ℤ → ℕ → List BulkItem → RunState → RunState
run w min_d max_d n [] st = finish w completed st
run w min_d max_d n (it ∷ []) st =
    if w.quits n then finish w interrupted st else finish w completed (attempt w n it st)
run w min_d max_d n (it ∷ next ∷ rest) st =
    let sent_one = attempt w n it st in
    let onward = run w min_d max_d (suc n) (next ∷ rest) sent_one in
    if w.quits n
    then finish w interrupted st
    else if sleep_jitter w n min_d max_d
    then onward
    else finish w interrupted sent_one

-- for the statements about a run: how many items it sends
unfoldable pub processed : RunWorld → ℤ → ℤ → ℕ → List BulkItem → ℕ
processed w min_d max_d n [] = 0
processed w min_d max_d n (it ∷ []) = if w.quits n then 0 else 1
processed w min_d max_d n (it ∷ next ∷ rest) =
    let onward = processed w min_d max_d (suc n) (next ∷ rest) in
    if w.quits n then 0 else if sleep_jitter w n min_d max_d then suc onward else 1
