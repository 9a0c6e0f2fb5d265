-- ===== src/Bulk/Restarts.antt =====
-- A job over any number of restarts: who is sent to, and who is left.
use wa_gateway.Base.{
  ◌≡◌, refl, sym, ap, subst, ◌∙◌, String, Bool, true, false, arith, List, [], ◌∷◌, ◌++◌, All, ok, ℕ,
  suc, zero, take, drop,
}
use mathlib.Core.List.{append_assoc}
use wa_gateway.Bulk.{BulkRequest, BulkItem, BulkJob, BulkDb, JobRow, MessageRow}
use wa_gateway.Bulk.Store.{rows_of_job, update_job}
use wa_gateway.Bulk.Load.{load_head, read_rows, read_row}
use wa_gateway.Bulk.Runner.{RunWorld, RunState, run, processed}
use wa_gateway.Bulk.Rows.{items-read_rows, pending_items}
use wa_gateway.Bulk.Crash.{IsAt, run-IsAt, id-run}
use wa_gateway.Bulk.Recover.{revived}
use wa_gateway.Bulk.Submit.{BulkConfig, Runner, Submitted, submit}
use wa_gateway.Bulk.Resume.{initial, submit-IsAt, id-submit}

-- A restart: the world of the run that it starts, and whether the job's row could be updated.
pub record Restart : Type 0 where
  pub world : RunWorld
  pub writes : Bool

-- the state in which the run of a resumed job begins
abbrev pub resumed : Restart → BulkDb → JobRow → RunState
resumed r db h =
    let job = revived (load_head db h).job in record { job = job; db = update_job r.writes job db }

-- the database after the resumed run
pub db_after_restart : Restart → JobRow → BulkDb → BulkDb
db_after_restart r h db =
    let rj = load_head db h in
    (run r.world rj.min_delay rj.max_delay 0 rj.pending (resumed r db h)).db

-- the recipients that the resumed run sends to
pub sent_in : Restart → JobRow → BulkDb → List BulkItem
sent_in r h db =
    let rj = load_head db h in
    take (processed r.world rj.min_delay rj.max_delay 0 rj.pending) rj.pending

unfoldable pub db_after_restarts : List Restart → JobRow → BulkDb → BulkDb
db_after_restarts [] h db = db
db_after_restarts (r ∷ rs) h db = db_after_restarts rs h (db_after_restart r h db)

unfoldable pub sent_in_restarts : List Restart → JobRow → BulkDb → List BulkItem
sent_in_restarts [] h db = []
sent_in_restarts (r ∷ rs) h db = sent_in r h db ++ sent_in_restarts rs h (db_after_restart r h db)

abbrev pub AllWritten : List Restart → Type 0
AllWritten rs = All (λ r. (m : ℕ) → r.world.writes m ≡ true) rs

take-drop_append : (n : ℕ) (items : List BulkItem) → take n items ++ drop n items ≡ items
take-drop_append zero items = refl
take-drop_append (suc n) [] = refl
take-drop_append (suc n) (it ∷ items) = ap (it ∷◌) (take-drop_append n items)

IsAt-same :
    (items : List BulkItem) (a b : RunState)
    → a.job.id ≡ b.job.id
    → a.db.messages ≡ b.db.messages
    → IsAt items a
    → IsAt items b
IsAt-same items a b i m h = record {
  of = rw (i, m) at h.of;
  ordered = rw (i, m) at h.ordered;
  pending = rw (i, m) at h.pending;
}

pending-load_head :
    (items : List BulkItem) (h : JobRow) (st : RunState)
    → st.job.id ≡ h.id
    → IsAt items st
    → (load_head st.db h).pending ≡ items
unfolding load_head
pending-load_head items h st own left =
    items-read_rows (rows_of_job h.id st.db.messages) _ []
    ∙ subst (λ (k : String). pending_items (rows_of_job k st.db.messages) ≡ items) own left.pending

id-read_rows :
    (rows : List MessageRow) (acc : BulkJob × List BulkItem) → (read_rows rows acc).0.id ≡ acc.0.id
unfolding read_rows
id-read_rows [] acc = refl
id-read_rows (r ∷ rows) acc = ground (arith, id-read_rows rows (read_row r acc))

id-load_head : (db : BulkDb) (h : JobRow) → (load_head db h).job.id ≡ h.id
unfolding load_head
id-load_head db h = id-read_rows (rows_of_job h.id db.messages) _

messages-update_job :
    (writes : Bool) (job : BulkJob) (db : BulkDb)
    → (update_job writes job db).messages ≡ db.messages
messages-update_job true job db = refl
messages-update_job false job db = refl

resumed-IsAt :
    (r : Restart) (items : List BulkItem) (h : JobRow) (st : RunState)
    → st.job.id ≡ h.id
    → IsAt items st
    → IsAt items (resumed r st.db h)
resumed-IsAt r items h st own left =
    IsAt-same items st (resumed r st.db h) (own ∙ sym (id-load_head st.db h))
      (sym (messages-update_job r.writes (revived (load_head st.db h).job) st.db)) left

restarts_lem :
    (rs : List Restart) (items : List BulkItem) (h : JobRow) (st : RunState)
    → st.job.id ≡ h.id
    → IsAt items st
    → AllWritten rs
    → sent_in_restarts rs h st.db ++ (load_head (db_after_restarts rs h st.db) h).pending ≡ items
unfolding sent_in_restarts db_after_restarts sent_in db_after_restart
restarts_lem [] items h st own left w = pending-load_head items h st own left
restarts_lem (r ∷ rs) items h st own left (w, ws) =
    let rj = load_head st.db h in
    let same : rj.pending ≡ items = pending-load_head items h st own left in
    let start = resumed r st.db h in
    let after = run r.world rj.min_delay rj.max_delay 0 rj.pending start in
    let begun : IsAt rj.pending start =
      subst (λ (x : List BulkItem). IsAt x start) (sym same) (resumed-IsAt r items h st own left) in
    let done = run-IsAt r.world rj.min_delay rj.max_delay 0 rj.pending start w begun in
    let number : after.job.id ≡ h.id =
      id-run r.world rj.min_delay rj.max_delay 0 rj.pending start ∙ id-load_head st.db h in
    let rest = restarts_lem rs _ h after number done ws in
    append_assoc (sent_in r h st.db) _ _
    ∙ ap (λ (x : List BulkItem). sent_in r h st.db ++ x) rest
    ∙ take-drop_append (processed r.world rj.min_delay rj.max_delay 0 rj.pending) rj.pending
    ∙ same

module _ (cfg : BulkConfig) (known : String → Bool) (id : String) (now : ℕ) (commits : Bool)
    (req : BulkRequest) (b : Runner) (sub : Submitted)
    (accepted : submit cfg known id now commits req b ≡ ok sub)
    (unused : rows_of_job id b.db.messages ≡ []) (saved : sub.saved ≡ true) where
  -- For a job that submit accepted and saved under a number that no row had, if each result of a
  -- send reached the database: the recipients that its first run attempts before a shutdown stops
  -- it, those that the runs after any number of restarts attempt, and those that are pending after
  -- the last are together, in this order, the job's recipients. So none is attempted twice and
  -- none is left out.
  pub sent_once :
      (w : RunWorld) (rs : List Restart) (h : JobRow)
      → ((m : ℕ) → w.writes m ≡ true)
      → AllWritten rs
      → h.id ≡ id
      → let after = (run w sub.min_d sub.max_d 0 sub.items (initial sub)).db in
        take (processed w sub.min_d sub.max_d 0 sub.items) sub.items
          ++ (sent_in_restarts rs h after ++ (load_head (db_after_restarts rs h after) h).pending)
        ≡ sub.items
  sent_once w rs h e es own =
      let after = run w sub.min_d sub.max_d 0 sub.items (initial sub) in
      let begun = submit-IsAt cfg known id now commits req b sub accepted unused saved in
      let found = run-IsAt w sub.min_d sub.max_d 0 sub.items (initial sub) e begun in
      let number : after.job.id ≡ h.id =
        id-run w sub.min_d sub.max_d 0 sub.items (initial sub)
        ∙ id-submit cfg known id now commits req b sub accepted unused saved
        ∙ sym own in
      ap (λ (x : List BulkItem). take (processed w sub.min_d sub.max_d 0 sub.items) sub.items ++ x)
        (restarts_lem rs _ h after number found es)
      ∙ take-drop_append (processed w sub.min_d sub.max_d 0 sub.items) sub.items
