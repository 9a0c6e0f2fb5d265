-- ===== src/Bulk/Counts.antt =====
-- The counters of a job and its results (internal/gateway/bulk.go) over a run.
use wa_gateway.Base.{
  ℕ, zero, suc, ◌+◌, ◌<◌, ◌≡◌, ◌≢◌, Bool, true, List, [], ◌∷◌, some, arith, All, length, length-set,
  get_elem?, get_elem?-set_ne, set, count_if, if◌then◌else◌, ◌∙◌, Result, ok, err, String, refl, ℤ,
  inl, inr, Bool-cases,
}
use wa_gateway.Bulk.{
  BulkResult, BulkJob, BulkItem, SendStatus, is_pending, is_sent, is_failed, is_running, JobStatus,
  completed, interrupted,
}
use wa_gateway.Bulk.Runner.{
  send_result, record_result, RunWorld, RunState, attempt, finish, run, processed, sleep_jitter,
}

abbrev pub count_status : (SendStatus → Bool) → List BulkResult → ℕ
count_status p results = count_if (λ r. p r.status) results

pub record IsCounted (j : BulkJob) : Type 0 where
  pub sized : length j.results ≡ j.total
  pub sent : j.sent ≡ count_status is_sent j.results
  pub failed : j.failed ≡ count_status is_failed j.results

-- The result at `i` is there, and pending.
pub record IsPendingAt (results : List BulkResult) (i : ℕ) : Type 0 where
  pub result : BulkResult
  pub at : get_elem? results i ≡ some result
  pub pending : is_pending result.status ≡ true

-- The items are numbered differently, and each has a pending result.
abbrev pub AreReady : List BulkItem → List BulkResult → Type 0
AreReady [] results = Unit
AreReady (it ∷ items) results =
    IsPendingAt results it.idx × All (λ x. it.idx ≢ x.idx) items × AreReady items results

count_if-set {ℓ} :
    {A : Type ℓ} (p : A → Bool) (xs : List A) (i : ℕ) (v : A) {x : A}
    → get_elem? xs i ≡ some x
    → count_if p (set xs i v) + (if p x then 1 else 0) ≡ count_if p xs + (if p v then 1 else 0)
count_if-set p [] i v e = ground arith
count_if-set p (y ∷ xs) zero v e = ground arith
count_if-set p (y ∷ xs) (suc i) v e = omega (arith, count_if-set p xs i v e)

lt_of_get_elem? {ℓ} :
    {A : Type ℓ} (xs : List A) (i : ℕ) {x : A} → get_elem? xs i ≡ some x → i < length xs
lt_of_get_elem? [] i e = ground arith
lt_of_get_elem? (y ∷ xs) zero e = omega arith
lt_of_get_elem? (y ∷ xs) (suc i) e = omega (arith, lt_of_get_elem? xs i e)

AreReady-set :
    (items : List BulkItem) (results : List BulkResult) (i : ℕ) (v : BulkResult)
    → All (λ x. i ≢ x.idx) items
    → AreReady items results
    → AreReady items (set results i v)
AreReady-set [] results i v n h = tt
AreReady-set (it ∷ items) results i v (n, ns) (p, ne, h) = (
  record { result = p.result; at = get_elem?-set_ne results v n ∙ p.at; pending = p.pending },
  ne,
  AreReady-set items results i v ns h,
)

-- What `k` sends change of a job.
pub record Progress (j j' : BulkJob) (k : ℕ) : Type 0 where
  pub counted : IsCounted j'
  pub total : j'.total ≡ j.total
  pub done : j'.sent + j'.failed ≡ j.sent + j.failed + k
  pub left : count_status is_pending j'.results + k ≡ count_status is_pending j.results

record_result-Progress :
    (it : BulkItem) (r : Result String String) (j : BulkJob)
    → IsCounted j
    → IsPendingAt j.results it.idx
    → Progress j (record_result it (send_result it r) j) 1
record_result-Progress it (ok id) j c p =
    let res = send_result it (ok id) in
    ground (
      arith,
      lt_of_get_elem? j.results it.idx p.at,
      length-set j.results it.idx res,
      count_if-set (λ x. is_sent x.status) j.results it.idx res p.at,
      count_if-set (λ x. is_failed x.status) j.results it.idx res p.at,
      count_if-set (λ x. is_pending x.status) j.results it.idx res p.at,
    )
record_result-Progress it (err e) j c p =
    let res = send_result it (err e) in
    ground (
      arith,
      lt_of_get_elem? j.results it.idx p.at,
      length-set j.results it.idx res,
      count_if-set (λ x. is_sent x.status) j.results it.idx res p.at,
      count_if-set (λ x. is_failed x.status) j.results it.idx res p.at,
      count_if-set (λ x. is_pending x.status) j.results it.idx res p.at,
    )

results-record_result :
    (it : BulkItem) (res : BulkResult) (j : BulkJob)
    → it.idx < length j.results
    → (record_result it res j).results ≡ set j.results it.idx res
results-record_result it res j h = ground arith

Progress-suc : (a b c : BulkJob) (k : ℕ) → Progress a b 1 → Progress b c k → Progress a c (suc k)
Progress-suc a b c k p q = record {
  counted = q.counted;
  total = q.total ∙ p.total;
  done = omega (arith, p.done, q.done);
  left = omega (arith, p.left, q.left);
}

finish-Progress :
    (w : RunWorld) (status : JobStatus) (st : RunState)
    → IsCounted st.job
    → Progress st.job (finish w status st).job 0
unfolding finish
finish-Progress w status st c = elim (Bool-cases (is_running st.job.status)) [
  | inl e ↦ rw e (record {
    counted = record { sized = c.sized; sent = c.sent; failed = c.failed };
    total = refl;
    done = omega arith;
    left = omega arith;
  })
  | inr e ↦ rw e (record { counted = c; total = refl; done = omega arith; left = omega arith })
]

module _ (w : RunWorld) (n : ℕ) (it : BulkItem) (st : RunState) where
  attempt-Progress :
      IsCounted st.job
      → IsPendingAt st.job.results it.idx
      → Progress st.job (attempt w n it st).job 1
  unfolding attempt
  attempt-Progress c p = record_result-Progress it (w.sends n it) st.job c p

  attempt-AreReady :
      (items : List BulkItem)
      → IsPendingAt st.job.results it.idx
      → All (λ x. it.idx ≢ x.idx) items
      → AreReady items st.job.results
      → AreReady items (attempt w n it st).job.results
  unfolding attempt
  attempt-AreReady items p ne h =
      rw
        (results-record_result it (send_result it (w.sends n it)) st.job
          (lt_of_get_elem? st.job.results it.idx p.at))
        (AreReady-set items st.job.results it.idx _ ne h)

module _ (w : RunWorld) (min_d max_d : ℤ) where
  -- From counters that agree with the results, and items that are numbered apart and pending, a
  -- run keeps the counters in step with the results, and moves as many items as it sends from
  -- pending to sent or failed.
  pub run-Progress :
      (n : ℕ) (items : List BulkItem) (st : RunState)
      → IsCounted st.job
      → AreReady items st.job.results
      → Progress st.job (run w min_d max_d n items st).job (processed w min_d max_d n items)
  unfolding run processed
  run-Progress n [] st c h = finish-Progress w completed st c
  run-Progress n (it ∷ []) st c (p, ne, h) =
      let one = attempt-Progress w n it st c p in
      elim (Bool-cases (w.quits n)) [
        | inl q ↦ rw q (finish-Progress w interrupted st c)
        | inr q ↦ rw q (
            Progress-suc st.job (attempt w n it st).job _ 0 one
              (finish-Progress w completed (attempt w n it st) one.counted))
      ]
  run-Progress n (it ∷ next ∷ rest) st c (p, ne, h) =
      let one = attempt-Progress w n it st c p in
      let onward =
        run-Progress (suc n) (next ∷ rest) (attempt w n it st) one.counted
          (attempt-AreReady w n it st (next ∷ rest) p ne h) in
      elim (Bool-cases (w.quits n)) [
        | inl q ↦ rw q (finish-Progress w interrupted st c)
        | inr q ↦ elim (Bool-cases (sleep_jitter w n min_d max_d)) [
          | inl awake ↦ rw (q, awake) (Progress-suc st.job (attempt w n it st).job _ _ one onward)
          | inr cut ↦
              rw (q, cut)
                (Progress-suc st.job (attempt w n it st).job _ 0 one
                  (finish-Progress w interrupted (attempt w n it st) one.counted))
        ]
      ]
