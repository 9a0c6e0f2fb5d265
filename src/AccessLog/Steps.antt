-- ===== src/AccessLog/Steps.antt =====
-- The access log (internal/gateway/accesslog.go) with calls that overlap. The lock is held for Record
-- and for the first half of flush, which takes the buffer; each INSERT of the second half is a step of
-- its own, so that the timer's flush, those of several queries, Record and purge run in between.
use wa_gateway.Base.{
  suc, refl, Bool-cases, inl, inr, is_empty, ℕ, ◌+◌, ◌≡◌, arith, Bool, not, List, [], ◌∷◌, ◌++◌,
  filter_if, count_if, count_if-append, leb,
}
use wa_gateway.Api.{AccessLogEntry}
use wa_gateway.AccessLog.{AccessLogRow, AccessLogStore, insert_row, insert_rows, flush}

-- The store; `flights` are the entries that each flush under way has still to insert. `recorded` are
-- all entries that were ever recorded, and `gone` those whose INSERT failed or whose row was purged.
pub record World : Type 0 where
  pub store : AccessLogStore
  pub flights : List (List AccessLogRow)
  pub recorded : List AccessLogRow
  pub gone : List AccessLogRow

pub data Step : World → World → Type 0 where
  -- Record
  record_one :
      (w : World) (e : AccessLogRow)
      → Step w (record w {
        store = record w.store { buf = w.store.buf ++ e ∷ [] };
        recorded = w.recorded ++ e ∷ [];
      })
  -- flush takes the buffer
  take_buffer :
      (w : World)
      → Step w (record w { store = record w.store { buf = [] }; flights = w.store.buf ∷ w.flights })
  -- the next INSERT of a flush goes through
  insert_goes :
      (w : World) (before after : List (List AccessLogRow)) (e : AccessLogRow)
      (entries : List AccessLogRow)
      → w.flights ≡ before ++ (e ∷ entries) ∷ after
      → Step w (record w { store = insert_row e w.store; flights = before ++ entries ∷ after })
  -- it fails, and the entry is dropped
  insert_fails :
      (w : World) (before after : List (List AccessLogRow)) (e : AccessLogRow)
      (entries : List AccessLogRow)
      → w.flights ≡ before ++ (e ∷ entries) ∷ after
      → Step w (record w { flights = before ++ entries ∷ after; gone = e ∷ w.gone })
  -- purge
  purge_rows :
      (w : World) (cutoff : ℕ)
      → Step w (record w {
        store = record w.store { rows = filter_if (λ r. leb cutoff r.created_at) w.store.rows };
        gone = filter_if (λ r. not (leb cutoff r.created_at)) w.store.rows ++ w.gone;
      })

pub data Reach (s : World) : World → Type 0 where
  here : Reach s s
  next : {t u : World} → Reach s t → Step t u → Reach s u

-- how many entries pass a test, whatever the number of their row
abbrev pub count_of : (AccessLogEntry → ℕ → Bool) → List AccessLogRow → ℕ
count_of p rows = count_if (λ r. p r.entry r.created_at) rows

abbrev pub count_flights : (AccessLogEntry → ℕ → Bool) → List (List AccessLogRow) → ℕ
count_flights p [] = 0
count_flights p (entries ∷ flights) = count_of p entries + count_flights p flights

-- Of every kind, the entries in the table, in the buffer, on their way and gone are as many as were
-- recorded.
abbrev pub IsConserved : World → Type 0
IsConserved w =
    (p : AccessLogEntry → ℕ → Bool)
    → count_of p w.store.rows
        + count_of p w.store.buf
        + count_flights p w.flights
        + count_of p w.gone
      ≡ count_of p w.recorded

module _ (p : AccessLogEntry → ℕ → Bool) where
  abbrev wanted : AccessLogRow → Bool
  wanted r = p r.entry r.created_at

  count_flights-append :
      (before after : List (List AccessLogRow))
      → count_flights p (before ++ after) ≡ count_flights p before + count_flights p after
  count_flights-append [] after = omega arith
  count_flights-append (x ∷ before) after = omega (arith, count_flights-append before after)

  count_flights-next :
      (flights before after : List (List AccessLogRow)) (e : AccessLogRow)
      (entries : List AccessLogRow)
      → flights ≡ before ++ (e ∷ entries) ∷ after
      → count_flights p flights ≡ count_of p (e ∷ []) + count_flights p (before ++ entries ∷ after)
  count_flights-next flights before after e entries h = rw h (
      omega (
        arith,
        count_flights-append before ((e ∷ entries) ∷ after),
        count_flights-append before (entries ∷ after),
      ))

  count_if-split :
      (q : AccessLogRow → Bool) (rows : List AccessLogRow)
      → count_of p (filter_if q rows) + count_of p (filter_if (λ r. not (q r)) rows)
        ≡ count_of p rows
  count_if-split q [] = omega arith
  count_if-split q (r ∷ rows) = ground (arith, count_if-split q rows)

Step-IsConserved : {s t : World} → Step s t → IsConserved s → IsConserved t
Step-IsConserved (record_one w e) h p = omega (
  arith,
  h p,
  count_if-append (wanted p) w.store.buf (e ∷ []),
  count_if-append (wanted p) w.recorded (e ∷ []),
)
Step-IsConserved (take_buffer w) h p = omega (arith, h p)
Step-IsConserved (insert_goes w before after e entries f) h p = omega (
  arith,
  h p,
  count_if-append (wanted p) w.store.rows (record e { id = w.store.next_id } ∷ []),
  count_flights-next p w.flights before after e entries f,
)
Step-IsConserved (insert_fails w before after e entries f) h p =
    omega (arith, h p, count_flights-next p w.flights before after e entries f)
Step-IsConserved (purge_rows w cutoff) h p = omega (
  arith,
  h p,
  count_if-split p (λ r. leb cutoff r.created_at) w.store.rows,
  count_if-append (wanted p) (filter_if (λ r. not (leb cutoff r.created_at)) w.store.rows) w.gone,
)

-- However Record, the flushes of the timer and of queries, and purge overlap, no entry is lost or
-- doubled but by an INSERT that fails or by purge: if the entries of every kind in the table, in
-- the buffer, on their way and gone are as many as were recorded, they still are.
pub IsConserved-Reach : {s t : World} → Reach s t → IsConserved s → IsConserved t
IsConserved-Reach here h = h
IsConserved-Reach (next r s) h = Step-IsConserved s (IsConserved-Reach r h)

Reach-trans : {s t u : World} → Reach s t → Reach t u → Reach s u
Reach-trans r here = r
Reach-trans r (next q s) = next (Reach-trans r q) s

abbrev world :
    AccessLogStore → List (List AccessLogRow) → List AccessLogRow → List AccessLogRow → World
world st flights recorded gone = record {
  store = st;
  flights = flights;
  recorded = recorded;
  gone = gone;
}

module _ (flights : List (List AccessLogRow)) (recorded : List AccessLogRow) where
  insert_rows-Reach :
      (goes : ℕ → Bool) (entries : List AccessLogRow) (st : AccessLogStore)
      (gone : List AccessLogRow)
      → (lost : List AccessLogRow) × Reach
          (world st (entries ∷ flights) recorded gone)
          (world (insert_rows goes entries st) ([] ∷ flights) recorded lost)
  unfolding insert_rows
  insert_rows-Reach goes [] st gone = (gone, here)
  insert_rows-Reach goes (e ∷ entries) st gone = elim (Bool-cases (goes 0)) [
    | inl g ↦
        let (lost, onward) = insert_rows-Reach (λ n. goes (suc n)) entries (insert_row e st) gone in
        (
          lost,
          rw (insert_rows, g)
              (Reach-trans
                (next here (
                  insert_goes (world st ((e ∷ entries) ∷ flights) recorded gone) [] flights e
                    entries refl))
                onward),
        )
    | inr g ↦
        let (lost, onward) = insert_rows-Reach (λ n. goes (suc n)) entries st (e ∷ gone) in
        (
          lost,
          rw (insert_rows, g)
              (Reach-trans
                (next here (
                  insert_fails (world st ((e ∷ entries) ∷ flights) recorded gone) [] flights e
                    entries refl))
                onward),
        )
  ]

  -- The flush that no other call interrupts is a run of the steps.
  flush-Reach :
      (goes : ℕ → Bool) (st : AccessLogStore) (gone : List AccessLogRow)
      → (left : List (List AccessLogRow)) × (lost : List AccessLogRow) × Reach
          (world st flights recorded gone)
          (world (flush goes st) left recorded lost)
  unfolding flush
  flush-Reach goes st gone = elim (Bool-cases (is_empty st.buf)) [
    | inl e ↦ (flights, gone, rw e here)
    | inr e ↦
        let (lost, inserted) = insert_rows-Reach goes st.buf (record st { buf = [] }) gone in
        (
          [] ∷ flights,
          lost,
          rw e (Reach-trans (next here (take_buffer (world st flights recorded gone))) inserted),
        )
  ]
