-- ===== src/AccessLog.antt =====
-- The access log: internal/gateway/accesslog.go. Entries wait in a buffer until `flush` writes them
-- to gw_access_logs. The loop of `start` only calls flush and purge on timers.
pub mod Refine
pub mod Steps
pub mod Examples
use wa_gateway.Base.{
  ℕ, suc, String, Bool, true, false, not, ◌&&◌, ◌||◌, ◌==◌, List, [], ◌∷◌, ◌++◌, ℤ, pos, negsuc,
  pos_part, is_positive, leb, if◌then◌else◌, Result, ok, err, is_empty, filter_if, take, drop,
}
use wa_gateway.Base.Paging.{default_limit, newest_first}
use wa_gateway.Api.{AccessLogEntry}

-- AccessLogEntry with the row's number, 0 until it is written, and its time
pub record AccessLogRow : Type 0 where
  pub id : ℕ
  pub entry : AccessLogEntry
  pub created_at : ℕ

-- AccessLogQuery
pub record AccessLogQuery : Type 0 where
  pub key_id : String
  pub since : ℤ
  pub limit : ℤ
  pub offset : ℤ

-- accessLogStore with its table; `next_id` is what BIGSERIAL gives to the next row
pub record AccessLogStore : Type 0 where
  pub rows : List AccessLogRow
  pub next_id : ℕ
  pub buf : List AccessLogRow

pub data LogError : Type 0 where
  query_failed : LogError

-- Record
unfoldable pub record_entry : Bool → ℕ → AccessLogEntry → AccessLogStore → AccessLogStore
record_entry enabled now e s =
    if not enabled
    then s
    else record s { buf = s.buf ++ record { id = 0; entry = e; created_at = now } ∷ [] }

-- the INSERT of one entry
abbrev pub insert_row : AccessLogRow → AccessLogStore → AccessLogStore
insert_row e s = record s {
  rows = s.rows ++ record e { id = s.next_id } ∷ [];
  next_id = suc s.next_id;
}

-- the loop of flush; the n-th INSERT goes through if `goes` says so, and an entry whose INSERT fails
-- is dropped
unfoldable pub insert_rows : (ℕ → Bool) → List AccessLogRow → AccessLogStore → AccessLogStore
insert_rows goes [] s = s
insert_rows goes (e ∷ entries) s =
    insert_rows (λ n. goes (suc n)) entries (if goes 0 then insert_row e s else s)

-- flush, with no other call between taking the buffer and the last INSERT
unfoldable pub flush : (ℕ → Bool) → AccessLogStore → AccessLogStore
flush goes s = if is_empty s.buf then s else insert_rows goes s.buf (record s { buf = [] })

-- purge; `cutoff` is time.Now().AddDate(0, 0, -retentionDays).Unix()
unfoldable pub purge : Bool → ℤ → ℕ → AccessLogStore → AccessLogStore
purge goes retention_days cutoff s =
    if not (is_positive retention_days) || not goes
    then s
    else record s { rows = filter_if (λ r. leb cutoff r.created_at) s.rows }

-- the WHERE of Query
abbrev pub is_wanted : AccessLogQuery → AccessLogRow → Bool
is_wanted q r =
    (q.key_id == "" || r.entry.key_id == q.key_id)
    && (not (is_positive q.since) || leb (pos_part q.since) r.created_at)

-- the SELECT of Query
unfoldable pub select_rows : AccessLogQuery → List AccessLogRow → List AccessLogRow
select_rows q rows =
    take (default_limit q.limit)
      (drop (pos_part q.offset) (newest_first (λ r. r.created_at) (filter_if (is_wanted q) rows)))

abbrev is_natural : ℤ → Bool
is_natural (pos n) = true
is_natural (negsuc n) = false

-- Query; a negative OFFSET is refused by the database
unfoldable pub query :
    Bool
    → Bool
    → (ℕ → Bool)
    → AccessLogQuery
    → AccessLogStore
    → Result LogError (List AccessLogRow) × AccessLogStore
query enabled selects goes q s =
    if not enabled
    then (ok [], s)
    else let flushed = flush goes s in
      (
        if selects && is_natural q.offset
            then ok (select_rows q flushed.rows)
            else err query_failed,
        flushed,
      )
