-- ===== src/Bulk/Completion.antt =====
-- What a run of a bulk job (internal/gateway/bulk.go) does to its items.
use wa_gateway.Base.{
  ℕ, zero, suc, ◌≡◌, String, Bool, true, false, List, [], ◌∷◌, ◌++◌, arith, length, length-append,
  ℤ, set, take, inl, inr, Bool-cases, refl, subst, sym, ap, ◌∙◌, ltb, ok,
}
use mathlib.Core.List.{append_assoc}
use wa_gateway.Bulk.{
  BulkItem, BulkResult, BulkMessage, BulkRequest, running, completed, interrupted, JobStatus,
}
use wa_gateway.Bulk.Runner.{
  RunWorld, RunState, send_result, attempt, finish, run, processed, sleep_jitter,
}
use wa_gateway.Bulk.Submit.{
  BulkConfig, Runner, Submitted, submit, items_of, pending_results_of, start_job, session_of,
}
use wa_gateway.Bulk.Submitted.{submit_lem}
use wa_gateway.Bulk.Resume.{initial}

-- the items sent one after the other, from the n-th on
unfoldable attempt_all : RunWorld → ℕ → List BulkItem → RunState → RunState
attempt_all w n [] st = st
attempt_all w n (it ∷ items) st = attempt_all w (suc n) items (attempt w n it st)

-- A run sends the first items, as many as `processed` counts, and ends with the status that finish
-- is given.
run-attempt_all :
    (w : RunWorld) (min_d max_d : ℤ) (n : ℕ) (items : List BulkItem) (st : RunState)
    → (status : JobStatus) × (run w min_d max_d n items st
        ≡ finish w status (attempt_all w n (take (processed w min_d max_d n items) items) st))
unfolding run processed attempt_all
run-attempt_all w min_d max_d n [] st = (completed, refl)
run-attempt_all w min_d max_d n (it ∷ []) st = elim (Bool-cases (w.quits n)) [
  | inl q ↦ (interrupted, rw (q, attempt_all) refl)
  | inr q ↦ (completed, rw (q, attempt_all) refl)
]
run-attempt_all w min_d max_d n (it ∷ next ∷ rest) st =
    let (status, onward) =
      run-attempt_all w min_d max_d (suc n) (next ∷ rest) (attempt w n it st) in
    elim (Bool-cases (w.quits n)) [
      | inl q ↦ (interrupted, rw (q, attempt_all) refl)
      | inr q ↦ elim (Bool-cases (sleep_jitter w n min_d max_d)) [
        | inl k ↦ (status, rw (q, k) onward)
        | inr k ↦ (interrupted, rw (q, k) refl)
      ]
    ]

-- what the sends of the items come to, from the n-th on
unfoldable pub outcomes : RunWorld → ℕ → List BulkItem → List BulkResult
outcomes w n [] = []
outcomes w n (it ∷ items) = send_result it (w.sends n it) ∷ outcomes w (suc n) items

status-finish :
    (w : RunWorld) (status : JobStatus) (st : RunState)
    → st.job.status ≡ running
    → (finish w status st).job.status ≡ status
unfolding finish
status-finish w status st e = ground (arith, e)

results-finish :
    (w : RunWorld) (status : JobStatus) (st : RunState)
    → (finish w status st).job.results ≡ st.job.results
unfolding finish
results-finish w status st = ground arith

status-attempt :
    (w : RunWorld) (n : ℕ) (it : BulkItem) (st : RunState)
    → (attempt w n it st).job.status ≡ st.job.status
unfolding attempt
status-attempt w n it st = ground arith

set-append :
    (front : List BulkResult) (old : BulkResult) (back : List BulkResult) (v : BulkResult) (i : ℕ)
    → i ≡ length front
    → set (front ++ old ∷ back) i v ≡ front ++ v ∷ back
set-append [] old back v i e = rw e refl
set-append (x ∷ front) old back v zero e = absurd (omega (arith, e))
set-append (x ∷ front) old back v (suc i) e =
    ap (x ∷◌) (set-append front old back v i (omega (arith, e)))

lt-append :
    (front : List BulkResult) (old : BulkResult) (back : List BulkResult)
    → ltb (length front) (length (front ++ old ∷ back)) ≡ true
lt-append front old back = ground (arith, length-append front (old ∷ back))

results-attempt :
    (w : RunWorld) (n : ℕ) (it : BulkItem) (st : RunState) (front : List BulkResult)
    (old : BulkResult) (back : List BulkResult)
    → it.idx ≡ length front
    → st.job.results ≡ front ++ old ∷ back
    → (attempt w n it st).job.results ≡ front ++ send_result it (w.sends n it) ∷ back
unfolding attempt
results-attempt w n it st front old back i e =
    let res = send_result it (w.sends n it) in
    let inside : ltb it.idx (length st.job.results) ≡ true = rw (i, e) (lt-append front old back) in
    let stored : set st.job.results it.idx res ≡ front ++ res ∷ back =
      rw e (set-append front old back res it.idx i) in
    ground (arith, inside, stored)

-- The items are numbered from `k` on.
abbrev IsNumbered : ℕ → List BulkItem → Type 0
IsNumbered k [] = Unit
IsNumbered k (it ∷ items) = (it.idx ≡ k) × IsNumbered (suc k) items

items_of-IsNumbered : (k : ℕ) (msgs : List BulkMessage) → IsNumbered k (items_of k msgs)
unfolding items_of
items_of-IsNumbered k [] = tt
items_of-IsNumbered k (m ∷ msgs) = (refl, items_of-IsNumbered (suc k) msgs)

length-items_of :
    (k : ℕ) (msgs : List BulkMessage) → length (pending_results_of msgs) ≡ length (items_of k msgs)
unfolding items_of
length-items_of k [] = refl
length-items_of k (m ∷ msgs) = ap suc (length-items_of (suc k) msgs)

module _ (w : RunWorld) (min_d max_d : ℤ) (quits : (m : ℕ) → w.quits m ≡ false)
    (wakes : (m : ℕ) → w.wakes m ≡ true) where
  status-run :
      (n : ℕ) (items : List BulkItem) (st : RunState)
      → st.job.status ≡ running
      → (run w min_d max_d n items st).job.status ≡ completed
  unfolding run
  status-run n [] st e = status-finish w completed st e
  status-run n (it ∷ []) st e =
      rw (quits n) (status-finish w completed (attempt w n it st) (status-attempt w n it st ∙ e))
  status-run n (it ∷ next ∷ rest) st e = ground (
    arith,
    quits n,
    wakes n,
    status-run (suc n) (next ∷ rest) (attempt w n it st) (status-attempt w n it st ∙ e),
  )

  results-run :
      (n : ℕ) (items : List BulkItem) (st : RunState) (front back : List BulkResult)
      → IsNumbered n items
      → n ≡ length front
      → length back ≡ length items
      → st.job.results ≡ front ++ back
      → (run w min_d max_d n items st).job.results ≡ front ++ outcomes w n items
  unfolding run outcomes
  results-run n [] st front [] i f b e = results-finish w completed st ∙ e
  results-run n [] st front (x ∷ back) i f b e = absurd (omega (arith, b))
  results-run n (it ∷ items) st front [] i f b e = absurd (omega (arith, b))
  results-run n (it ∷ []) st front (old ∷ []) (i, is) f b e = rw (quits n) (
      results-finish w completed (attempt w n it st)
      ∙ results-attempt w n it st front old [] (i ∙ f) e)
  results-run n (it ∷ []) st front (old ∷ x ∷ back) i f b e = absurd (omega (arith, b))
  results-run n (it ∷ next ∷ rest) st front (old ∷ back) (i, is) f b e =
      let res = send_result it (w.sends n it) in
      let stored =
        results-attempt w n it st front old back (i ∙ f) e
        ∙ sym (append_assoc front (res ∷ []) back) in
      let onward =
        results-run (suc n) (next ∷ rest) (attempt w n it st) (front ++ res ∷ []) back is
          (omega (arith, f, length-append front (res ∷ []))) (omega (arith, b)) stored
        ∙ append_assoc front (res ∷ []) (outcomes w (suc n) (next ∷ rest)) in
      ground (arith, quits n, wakes n, onward)

length-outcomes :
    (w : RunWorld) (n : ℕ) (items : List BulkItem) → length (outcomes w n items) ≡ length items
unfolding outcomes
length-outcomes w n [] = refl
length-outcomes w n (it ∷ items) = ap suc (length-outcomes w (suc n) items)

length-items_of_total : (k : ℕ) (msgs : List BulkMessage) → length (items_of k msgs) ≡ length msgs
unfolding items_of
length-items_of_total k [] = refl
length-items_of_total k (m ∷ msgs) = ap suc (length-items_of_total (suc k) msgs)

-- what a run that is not stopped ends with
abbrev pub IsCompleted : RunWorld → Submitted → Type 0
IsCompleted w s =
    ((run w s.min_d s.max_d 0 s.items (initial s)).job.status ≡ completed)
    × ((run w s.min_d s.max_d 0 s.items (initial s)).job.results ≡ outcomes w 0 s.items)
    × (length (outcomes w 0 s.items) ≡ s.job.total)

module _ (cfg : BulkConfig) (known : String → Bool) (id : String) (now : ℕ) (commits : Bool)
    (req : BulkRequest) (b : Runner) (sub : Submitted)
    (accepted : submit cfg known id now commits req b ≡ ok sub) where
  -- If a job that submit accepted is not interrupted, before a send or during a pause, its run ends
  -- as completed with one result for each of its recipients: in their order, what the send to each
  -- came to, the message's id or the error.
  pub run_uninterrupted :
      (w : RunWorld)
      → ((m : ℕ) → w.quits m ≡ false)
      → ((m : ℕ) → w.wakes m ≡ true)
      → IsCompleted w sub
  run_uninterrupted w q k =
      let (out, _, same) = submit_lem cfg known id now commits req b sub accepted in
      subst (IsCompleted w) same (started_out out)
    where
      started_out :
          (out : List BulkMessage)
          → IsCompleted w (start_job cfg req (session_of req) id now commits b out)
      started_out out = (
        status-run w _ _ q k 0 (items_of 0 out) _ refl,
        results-run w _ _ q k 0 (items_of 0 out) _ [] (pending_results_of out)
            (items_of-IsNumbered 0 out) refl (length-items_of 0 out) refl,
        length-outcomes w 0 (items_of 0 out) ∙ length-items_of_total 0 out,
      )
