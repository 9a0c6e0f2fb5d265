-- ===== src/Bulk/Resume.antt =====
-- The rows of a job that submit saved, as its run and a restart find them.
use wa_gateway.Base.{
  ℕ, suc, ◌<◌, ◌≡◌, ◌≢◌, refl, sym, subst, String, ◌==◌, eq_refl, Bool, true, List, [], ◌∷◌, ◌++◌,
  Option, none, some, arith, All, ℤ, ok, Bool-cases, inl, inr,
}
use wa_gateway.Bulk.{BulkMessage, BulkRequest, MessageRow, BulkDb, BulkJob}
use wa_gateway.Bulk.Store.{rows_of_job, insert_by_idx, message_rows, save_job}
use wa_gateway.Bulk.Runner.{RunState}
use wa_gateway.Bulk.Rows.{pending_items, IsOrdered, AreOf}
use wa_gateway.Bulk.Crash.{IsAt}
use wa_gateway.Bulk.Submit.{
  BulkConfig, Runner, Submitted, items_of, is_saved, db_after, start_job, submit, session_of,
  new_job, min_delay, max_delay,
}
use wa_gateway.Bulk.Submitted.{submit_lem}

message_rows-IsOrdered_above :
    (id : String) (i j : ℕ) (msgs : List BulkMessage)
    → i < j
    → All (λ q. i < q.idx) (message_rows id j msgs)
unfolding message_rows
message_rows-IsOrdered_above id i j [] h = tt
message_rows-IsOrdered_above id i j (m ∷ msgs) h =
    (h, message_rows-IsOrdered_above id i (suc j) msgs (omega arith))

message_rows-IsOrdered :
    (id : String) (i : ℕ) (msgs : List BulkMessage) → IsOrdered (message_rows id i msgs)
unfolding message_rows
message_rows-IsOrdered id i [] = tt
message_rows-IsOrdered id i (m ∷ msgs) = (
  message_rows-IsOrdered_above id i (suc i) msgs (omega arith),
  message_rows-IsOrdered id (suc i) msgs,
)

message_rows-AreOf :
    (id : String) (i : ℕ) (msgs : List BulkMessage) → AreOf id (message_rows id i msgs)
unfolding message_rows
message_rows-AreOf id i [] = tt
message_rows-AreOf id i (m ∷ msgs) = (refl, message_rows-AreOf id (suc i) msgs)

pending_items-message_rows :
    (id : String) (i : ℕ) (msgs : List BulkMessage)
    → pending_items (message_rows id i msgs) ≡ items_of i msgs
unfolding message_rows items_of
pending_items-message_rows id i [] = refl
pending_items-message_rows id i (m ∷ msgs) = rw (pending_items-message_rows id (suc i) msgs) refl

insert_by_idx-first :
    (r : MessageRow) (id : String) (i : ℕ) (msgs : List BulkMessage)
    → r.idx < i
    → insert_by_idx r (message_rows id i msgs) ≡ r ∷ message_rows id i msgs
unfolding insert_by_idx message_rows
insert_by_idx-first r id i [] h = refl
insert_by_idx-first r id i (m ∷ msgs) h = ground arith

rows_of_job-message_rows :
    (id : String) (i : ℕ) (msgs : List BulkMessage)
    → rows_of_job id (message_rows id i msgs) ≡ message_rows id i msgs
unfolding rows_of_job message_rows
rows_of_job-message_rows id i [] = refl
rows_of_job-message_rows id i (m ∷ msgs) =
    rw (eq_refl id, rows_of_job-message_rows id (suc i) msgs)
      (insert_by_idx-first _ id (suc i) msgs (omega arith))

insert_by_idx-ne-nil : (r : MessageRow) (rows : List MessageRow) → insert_by_idx r rows ≢ []
unfolding insert_by_idx
insert_by_idx-ne-nil r [] e = cc
insert_by_idx-ne-nil r (q ∷ rows) e = ground arith

rows_of_job-append :
    (id : String) (table rows : List MessageRow)
    → rows_of_job id table ≡ []
    → rows_of_job id (table ++ rows) ≡ rows_of_job id rows
unfolding rows_of_job
rows_of_job-append id [] rows e = refl
rows_of_job-append id (r ∷ table) rows e = elim (Bool-cases (r.job_id == id)) [
  | inl own ↦ absurd (insert_by_idx-ne-nil r (rows_of_job id table) (rw own at e))
  | inr other ↦ rw other (rows_of_job-append id table rows (rw other at e))
]

IsAt-message_rows :
    (job : BulkJob) (db : BulkDb) (msgs : List BulkMessage)
    → rows_of_job job.id db.messages ≡ message_rows job.id 0 msgs
    → IsAt (items_of 0 msgs) (record { job = job; db = db })
IsAt-message_rows job db msgs e = record {
  of = rw e (message_rows-AreOf job.id 0 msgs);
  ordered = rw e (message_rows-IsOrdered job.id 0 msgs);
  pending = rw e (pending_items-message_rows job.id 0 msgs);
}

rows-save_job :
    (commits : Bool) (job : BulkJob) (msgs : List BulkMessage) (a b : ℤ) (db db' : BulkDb)
    → rows_of_job job.id db.messages ≡ []
    → save_job commits job msgs a b db ≡ some db'
    → rows_of_job job.id db'.messages ≡ message_rows job.id 0 msgs
unfolding save_job
rows-save_job commits job msgs a b db db' e s = ground (
  arith,
  s,
  rows_of_job-append job.id db.messages (message_rows job.id 0 msgs) e,
  rows_of_job-message_rows job.id 0 msgs,
)

-- the state in which a submitted job begins to run
abbrev pub initial : Submitted → RunState
initial sub = record { job = sub.job; db = sub.runner.db }

some-db_after : (o : Option BulkDb) (old : BulkDb) → is_saved o ≡ true → o ≡ some (db_after o old)
some-db_after none old e = cc
some-db_after (some db) old e = refl

IsAt-start_job :
    (cfg : BulkConfig) (req : BulkRequest) (session id : String) (now : ℕ) (commits : Bool)
    (b : Runner) (out : List BulkMessage)
    → rows_of_job id b.db.messages ≡ []
    → (start_job cfg req session id now commits b out).saved ≡ true
    → IsAt (items_of 0 out) (initial (start_job cfg req session id now commits b out))
IsAt-start_job cfg req session id now commits b out e s =
    let job = new_job id session now out in
    let min_d = min_delay cfg req in
    let max_d = max_delay cfg req in
    IsAt-message_rows job _ out (
      rows-save_job commits job out min_d max_d b.db _ e
        (some-db_after (save_job commits job out min_d max_d b.db) b.db s))

module _ (cfg : BulkConfig) (known : String → Bool) (id : String) (now : ℕ) (commits : Bool)
    (req : BulkRequest) (b : Runner) (sub : Submitted)
    (accepted : submit cfg known id now commits req b ≡ ok sub)
    (unused : rows_of_job id b.db.messages ≡ []) (saved : sub.saved ≡ true) where
  pub submit-IsAt : IsAt sub.items (initial sub)
  submit-IsAt =
      let (out, _, same) = submit_lem cfg known id now commits req b sub accepted in
      subst (λ (x : Submitted). IsAt x.items (initial x)) same
        (IsAt-start_job cfg req (session_of req) id now commits b out unused
          (subst (λ (x : Submitted). x.saved ≡ true) (sym same) saved))

  pub id-submit : sub.job.id ≡ id
  id-submit =
      let (out, _, same) = submit_lem cfg known id now commits req b sub accepted in
      subst (λ (x : Submitted). x.job.id ≡ id) same refl
