-- ===== src/Bulk/Crash.antt =====
-- The pending rows of a job (internal/gateway/bulk.go) before and after a run.
use wa_gateway.Base.{
  ℕ, suc, ◌≡◌, refl, String, true, false, List, [], ◌∷◌, arith, ℤ, inl, inr, Bool-cases, drop,
  Result, ok, err,
}
use wa_gateway.Bulk.{BulkItem, is_pending, JobStatus, completed, interrupted}
use wa_gateway.Bulk.Store.{update_rows, rows_of_job}
use wa_gateway.Bulk.Runner.{
  RunWorld, RunState, send_result, attempt, finish, run, processed, sleep_jitter,
}
use wa_gateway.Bulk.Rows.{
  pending_items, IsOrdered, AreOf, rows_of_job-update, IsOrdered-update_rows, AreOf-update_rows,
  pending_items-update_rows,
}

-- In the table the job's pending rows are those of `items`.
pub record IsAt (items : List BulkItem) (st : RunState) : Type 0 where
  pub of : AreOf st.job.id (rows_of_job st.job.id st.db.messages)
  pub ordered : IsOrdered (rows_of_job st.job.id st.db.messages)
  pub pending : pending_items (rows_of_job st.job.id st.db.messages) ≡ items

send_result_done :
    (it : BulkItem) (r : Result String String) → is_pending (send_result it r).status ≡ false
send_result_done it (ok id) = refl
send_result_done it (err e) = refl

module _ (w : RunWorld) where
  id-attempt : (n : ℕ) (it : BulkItem) (st : RunState) → (attempt w n it st).job.id ≡ st.job.id
  unfolding attempt
  id-attempt n it st = ground arith

  rows-attempt :
      (n : ℕ) (it : BulkItem) (st : RunState)
      → w.writes n ≡ true
      → rows_of_job (attempt w n it st).job.id (attempt w n it st).db.messages
        ≡ update_rows st.job.id it.idx
            (send_result it (w.sends n it))
            (rows_of_job st.job.id st.db.messages)
  rows-attempt n it st e = rw (id-attempt n it st) (
      unfold attempt in
      rw e (rows_of_job-update st.job.id it.idx (send_result it (w.sends n it)) st.db.messages))

  attempt-IsAt :
      (n : ℕ) (it : BulkItem) (rest : List BulkItem) (st : RunState)
      → w.writes n ≡ true
      → IsAt (it ∷ rest) st
      → IsAt rest (attempt w n it st)
  attempt-IsAt n it rest st e h =
      let res = send_result it (w.sends n it) in
      record {
        of =
            rw (rows-attempt n it st e, id-attempt n it st)
              (AreOf-update_rows st.job.id it.idx res st.job.id _ h.of);
        ordered =
            rw (rows-attempt n it st e) (IsOrdered-update_rows st.job.id it.idx res _ h.ordered);
        pending = rw (rows-attempt n it st e) (
            pending_items-update_rows st.job.id res _ it rest h.of h.ordered
              (send_result_done it (w.sends n it)) h.pending);
      }

  id-finish : (status : JobStatus) (st : RunState) → (finish w status st).job.id ≡ st.job.id
  unfolding finish
  id-finish status st = ground arith

  messages-finish :
      (status : JobStatus) (st : RunState) → (finish w status st).db.messages ≡ st.db.messages
  unfolding finish
  messages-finish status st = ground arith

  finish-IsAt :
      (items : List BulkItem) (status : JobStatus) (st : RunState)
      → IsAt items st
      → IsAt items (finish w status st)
  finish-IsAt items status st h = record {
    of = rw (messages-finish status st, id-finish status st) h.of;
    ordered = rw (messages-finish status st, id-finish status st) h.ordered;
    pending = rw (messages-finish status st, id-finish status st) h.pending;
  }

  pub run-IsAt :
      (min_d max_d : ℤ) (n : ℕ) (items : List BulkItem) (st : RunState)
      → ((m : ℕ) → w.writes m ≡ true)
      → IsAt items st
      → IsAt (drop (processed w min_d max_d n items) items) (run w min_d max_d n items st)
  unfolding run processed
  run-IsAt min_d max_d n [] st e h = finish-IsAt [] completed st h
  run-IsAt min_d max_d n (it ∷ []) st e h = elim (Bool-cases (w.quits n)) [
    | inl q ↦ rw q (finish-IsAt (it ∷ []) interrupted st h)
    | inr q ↦ rw q (finish-IsAt [] completed (attempt w n it st) (attempt-IsAt n it [] st (e n) h))
  ]
  run-IsAt min_d max_d n (it ∷ next ∷ rest) st e h =
      let one = attempt-IsAt n it (next ∷ rest) st (e n) h in
      let onward = run-IsAt min_d max_d (suc n) (next ∷ rest) (attempt w n it st) e one in
      elim (Bool-cases (w.quits n)) [
        | inl q ↦ rw q (finish-IsAt (it ∷ next ∷ rest) interrupted st h)
        | inr q ↦ elim (Bool-cases (sleep_jitter w n min_d max_d)) [
          | inl awake ↦ rw (q, awake) onward
          | inr cut ↦ rw (q, cut) (finish-IsAt (next ∷ rest) interrupted (attempt w n it st) one)
        ]
      ]

  pub id-run :
      (min_d max_d : ℤ) (n : ℕ) (items : List BulkItem) (st : RunState)
      → (run w min_d max_d n items st).job.id ≡ st.job.id
  unfolding run
  id-run min_d max_d n [] st = id-finish completed st
  id-run min_d max_d n (it ∷ []) st =
      ground (
        arith,
        id-finish interrupted st,
        id-finish completed (attempt w n it st),
        id-attempt n it st,
      )
  id-run min_d max_d n (it ∷ next ∷ rest) st = ground (
    arith,
    id-finish interrupted st,
    id-finish interrupted (attempt w n it st),
    id-attempt n it st,
    id-run min_d max_d (suc n) (next ∷ rest) (attempt w n it st),
  )
