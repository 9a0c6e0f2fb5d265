-- ===== src/Bulk/Rows.antt =====
-- The message rows of one job, as loadResumable reads them, and what an update does to them.
use wa_gateway.Base.{
  ℕ, ◌<◌, ◌≡◌, refl, sym, ap, String, ◌==◌, eq_iff, false, List, [], ◌∷◌, ◌++◌, arith, All,
  if◌then◌else◌, Bool-cases, inl, inr, ◌∙◌, subst,
}
use mathlib.Core.List.{append-nil, append_assoc}
use wa_gateway.Bulk.{BulkResult, BulkJob, BulkItem, MessageRow, is_pending}
use wa_gateway.Bulk.Store.{update_rows, is_row, with_result, insert_by_idx, rows_of_job}
use wa_gateway.Bulk.Load.{row_item, read_row, read_rows}

-- The recipients that are still pending.
abbrev pub pending_items : List MessageRow → List BulkItem
pending_items [] = []
pending_items (r ∷ rows) =
    if is_pending r.status then row_item r ∷ pending_items rows else pending_items rows

items-read_row :
    (r : MessageRow) (job : BulkJob) (items : List BulkItem)
    → (read_row r (job, items)).1 ≡ items ++ pending_items (r ∷ [])
items-read_row r job items = ground (arith, append-nil items)

pending_items-cons :
    (r : MessageRow) (rows : List MessageRow)
    → pending_items (r ∷ []) ++ pending_items rows ≡ pending_items (r ∷ rows)
pending_items-cons r rows = ground arith

pub items-read_rows :
    (rows : List MessageRow) (job : BulkJob) (items : List BulkItem)
    → (read_rows rows (job, items)).1 ≡ items ++ pending_items rows
unfolding read_rows
items-read_rows [] job items = sym (append-nil items)
items-read_rows (r ∷ rows) job items =
    let read = read_row r (job, items) in
    items-read_rows rows read.0 read.1
    ∙ ap (λ (front : List BulkItem). front ++ pending_items rows) (items-read_row r job items)
    ∙ append_assoc items (pending_items (r ∷ [])) (pending_items rows)
    ∙ ap (λ (back : List BulkItem). items ++ back) (pending_items-cons r rows)

-- Rows in the order of their numbers.
abbrev pub IsOrdered : List MessageRow → Type 0
IsOrdered [] = Unit
IsOrdered (r ∷ rows) = All (λ q. r.idx < q.idx) rows × IsOrdered rows

-- Rows of the job `id`.
abbrev pub AreOf : String → List MessageRow → Type 0
AreOf id rows = All (λ r. r.job_id ≡ id) rows

module _ (id : String) (idx : ℕ) (res : BulkResult) where
  insert_by_idx-update :
      (r : MessageRow) (rows : List MessageRow)
      → insert_by_idx
          (if is_row id idx r then with_result res r else r)
          (update_rows id idx res rows)
        ≡ update_rows id idx res (insert_by_idx r rows)
  unfolding insert_by_idx update_rows
  insert_by_idx-update r [] = refl
  insert_by_idx-update r (q ∷ rows) = ground (arith, insert_by_idx-update r rows)

  job_id-update :
      (r : MessageRow) → (if is_row id idx r then with_result res r else r).job_id ≡ r.job_id
  job_id-update r = ground arith

  idx-update : (r : MessageRow) → (if is_row id idx r then with_result res r else r).idx ≡ r.idx
  idx-update r = ground arith

  -- an UPDATE of the table is one of the job's rows
  pub rows_of_job-update :
      (table : List MessageRow)
      → rows_of_job id (update_rows id idx res table)
        ≡ update_rows id idx res (rows_of_job id table)
  unfolding rows_of_job update_rows
  rows_of_job-update [] = refl
  rows_of_job-update (r ∷ table) = elim (Bool-cases (r.job_id == id)) [
    | inl own ↦
        rw (job_id-update r, own, rows_of_job-update table)
          (rw own at (insert_by_idx-update r (rows_of_job id table)))
    | inr other ↦ rw (job_id-update r, other) (rows_of_job-update table)
  ]

  update_rows_above :
      (rows : List MessageRow) → All (λ q. idx < q.idx) rows → update_rows id idx res rows ≡ rows
  unfolding update_rows
  update_rows_above [] h = refl
  update_rows_above (r ∷ rows) (h, hs) = ground (arith, update_rows_above rows hs)

  All-update_rows :
      (P : ℕ → Type 0) (rows : List MessageRow)
      → All (λ q. P q.idx) rows
      → All (λ q. P q.idx) (update_rows id idx res rows)
  unfolding update_rows
  All-update_rows P [] h = tt
  All-update_rows P (r ∷ rows) (h, hs) = (rw (idx-update r) h, All-update_rows P rows hs)

  pub IsOrdered-update_rows :
      (rows : List MessageRow) → IsOrdered rows → IsOrdered (update_rows id idx res rows)
  unfolding update_rows
  IsOrdered-update_rows [] h = tt
  IsOrdered-update_rows (r ∷ rows) (h, hs) =
      (rw (idx-update r) (All-update_rows (λ i. r.idx < i) rows h), IsOrdered-update_rows rows hs)

  pub AreOf-update_rows :
      (own : String) (rows : List MessageRow)
      → AreOf own rows
      → AreOf own (update_rows id idx res rows)
  unfolding update_rows
  AreOf-update_rows own [] h = tt
  AreOf-update_rows own (r ∷ rows) (h, hs) = (rw (job_id-update r) h, AreOf-update_rows own rows hs)

-- the result of the first pending item takes its row off the pending ones, and no other
pub pending_items-update_rows :
    (id : String) (res : BulkResult) (rows : List MessageRow) (it : BulkItem) (rest : List BulkItem)
    → AreOf id rows
    → IsOrdered rows
    → is_pending res.status ≡ false
    → pending_items rows ≡ it ∷ rest
    → pending_items (update_rows id it.idx res rows) ≡ rest
unfolding update_rows
pending_items-update_rows id res [] it rest o h f e = ground arith
pending_items-update_rows id res (r ∷ rows) it rest (o, os) (h, hs) f e =
    elim (Bool-cases (is_pending r.status)) [
      | inl p ↦
          let same : it ≡ row_item r = ground arith in
          let others : pending_items rows ≡ rest = ground arith in
          let number : it.idx ≡ r.idx = ap (λ (x : BulkItem). x.idx) same in
          let above = subst (λ i. All (λ q. i < q.idx) rows) (sym number) h in
          ground
            (arith, number, update_rows_above id it.idx res rows above, eq_iff r.job_id id, others)
      | inr p ↦
          let others : pending_items rows ≡ it ∷ rest = ground arith in
          ground (arith, pending_items-update_rows id res rows it rest os hs f others)
    ]
