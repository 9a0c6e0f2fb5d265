-- ===== src/Bulk/Recover.antt =====
-- resumeInterrupted, waitReady, job and list of internal/gateway/bulk.go. The runs that a recovery
-- starts are returned, in their order; each is then a run of Bulk/Runner.
use wa_gateway.Base.{
  ℕ, String, Bool, true, false, not, ◌==◌, List, [], ◌∷◌, ◌++◌, Option, none, some, leb, take,
  if◌then◌else◌, Assoc, lookup, insert, is_empty,
}
use wa_gateway.Bulk.{BulkJob, BulkDb, JobRow, running, completed, interrupted}
use wa_gateway.Bulk.Store.{update_job, mark_interrupted}
use wa_gateway.Bulk.Load.{ResumableJob, load_resumable, load_job}
use wa_gateway.Bulk.Submit.{Runner}

-- one round of the loop of waitReady: the session is there and ready, the deadline has passed, the
-- quit channel is closed
pub record Poll : Type 0 where
  pub ready : Bool
  pub late : Bool
  pub quit : Bool

-- waitReady; the deadline ends every sequence of polls
unfoldable pub wait_ready : List Poll → Bool
wait_ready [] = false
wait_ready (p ∷ polls) =
    let rest = wait_ready polls in
    if p.ready then true else if p.late then false else if p.quit then false else rest

-- What happens while jobs are recovered, by the job's id or its session's name.
pub record RecoveryWorld : Type 0 where
  pub auto_resume : Bool
  pub loads : Bool
  pub quits : String → Bool
  pub polls : String → List Poll
  pub writes : String → Bool
  pub marks : Bool
  pub now : ℕ

pub record Recovery : Type 0 where
  pub runner : Runner
  pub started : List ResumableJob

abbrev pub ended : RecoveryWorld → BulkJob → BulkJob
ended w job = record job { status = completed; finished_at = w.now }

abbrev pub put_off : RecoveryWorld → BulkJob → BulkJob
put_off w job = record job { status = interrupted; finished_at = w.now }

abbrev pub revived : BulkJob → BulkJob
revived job = record job { status = running; finished_at = 0 }

abbrev pub store_job : RecoveryWorld → BulkJob → Runner → Runner
store_job w job b = record b { db = update_job (w.writes job.id) job b.db }

-- the body of the loop
unfoldable pub resume_one : RecoveryWorld → ResumableJob → Recovery → Recovery
resume_one w rj st =
    if is_empty rj.pending
    then record st { runner = store_job w (ended w rj.job) st.runner }
    else if not (wait_ready (w.polls rj.job.session))
    then record st { runner = store_job w (put_off w rj.job) st.runner }
    else record {
      runner =
          store_job w (revived rj.job)
            (record st.runner { jobs = insert rj.job.id (revived rj.job) st.runner.jobs });
      started = st.started ++ record rj { job = revived rj.job } ∷ [];
    }

unfoldable pub resume_all : RecoveryWorld → List ResumableJob → Recovery → Recovery
resume_all w [] st = st
resume_all w (rj ∷ jobs) st =
    let onward = resume_all w jobs (resume_one w rj st) in if w.quits rj.job.id then st else onward

unfoldable pub resume_interrupted : RecoveryWorld → Runner → Recovery
resume_interrupted w b =
    if not w.auto_resume
    then record { runner = record b { db = mark_interrupted w.marks w.now b.db }; started = [] }
    else if not w.loads
    then record { runner = b; started = [] }
    else resume_all w (load_resumable b.db) (record { runner = b; started = [] })

-- job: the one in memory, else the one in the database, if that can be read
unfoldable pub job : Bool → String → Runner → Option BulkJob
job reads id b = elim (lookup id b.jobs) [
  | some j ↦ some j
  | none ↦ if reads then load_job b.db id else none
]

-- ORDER BY started_at DESC
unfoldable pub insert_newest : BulkJob → List BulkJob → List BulkJob
insert_newest j [] = j ∷ []
insert_newest j (k ∷ jobs) =
    if leb k.started_at j.started_at then j ∷ k ∷ jobs else k ∷ insert_newest j jobs

unfoldable pub newest_first : List BulkJob → List BulkJob
newest_first [] = []
newest_first (j ∷ jobs) = insert_newest j (newest_first jobs)

abbrev pub row_job : JobRow → BulkJob
row_job r = record {
  id = r.id;
  session = r.session;
  status = r.status;
  total = r.total;
  sent = r.sent;
  failed = r.failed;
  started_at = r.started_at;
  finished_at = r.finished_at;
  results = [];
}

abbrev pub row_jobs : List JobRow → List BulkJob
row_jobs [] = []
row_jobs (r ∷ rows) = row_job r ∷ row_jobs rows

-- listJobs; `none` is an error
unfoldable pub list_jobs : Bool → BulkDb → Option (List BulkJob)
list_jobs reads db = if reads then some (take 200 (newest_first (row_jobs db.jobs))) else none

abbrev pub or_none : Option (List BulkJob) → List BulkJob
or_none none = []
or_none (some jobs) = jobs

abbrev pub or_stored : Option BulkJob → BulkJob → BulkJob
or_stored none stored = stored
or_stored (some j) stored = j

-- the loop over the jobs of the database
unfoldable pub preferred : Assoc BulkJob → List BulkJob → List BulkJob
preferred memory [] = []
preferred memory (j ∷ jobs) = or_stored (lookup j.id memory) j ∷ preferred memory jobs

abbrev pub seen : String → List BulkJob → Bool
seen id [] = false
seen id (j ∷ jobs) = if j.id == id then true else seen id jobs

-- the loop over the jobs in memory
unfoldable pub unseen : List BulkJob → Assoc BulkJob → List BulkJob
unseen stored [] = []
unseen stored ((id, j) ∷ memory) =
    let rest = unseen stored memory in if seen id stored then rest else j ∷ rest

unfoldable pub list : Bool → Runner → List BulkJob
list reads b =
    let stored = or_none (list_jobs reads b.db) in
    newest_first (preferred b.jobs stored ++ unseen stored b.jobs)
