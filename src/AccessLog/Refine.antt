-- ===== src/AccessLog/Refine.antt =====
-- The access log (internal/gateway/accesslog.go), with calls that follow each other, against a log
-- without a buffer, and what its Query returns.
use wa_gateway.Base.{
  ℕ, suc, subst, Bool, true, ◌≡◌, refl, ap, ◌∙◌, List, [], ◌∷◌, ◌&&◌, ◌++◌, ok, err, Result,
  if◌then◌else◌, pos_part, Bool-cases, inl, inr,
}
use wa_gateway.Base.Paging.{default_limit, IsPage, take-IsPage}
use wa_gateway.Api.{AccessLogEntry}
use wa_gateway.AccessLog.{
  AccessLogRow, AccessLogQuery, AccessLogStore, LogError, record_entry, insert_rows, flush, query,
  query_failed, select_rows, is_wanted, is_natural,
}

-- a client's calls; a Query carries whether its SELECT goes through
pub data Op : Type 0 where
  record_at : ℕ → AccessLogEntry → Op
  flush_now : Op
  query_for : Bool → AccessLogQuery → Op

-- the replies to the queries among the calls
abbrev pub Replies : Type 0
Replies = List (Result LogError (List AccessLogRow))

abbrev pub every : ℕ → Bool
every n = true

-- the calls made on the store, each INSERT going through
unfoldable pub run : List Op → AccessLogStore → Replies
run [] s = []
run (record_at now e ∷ ops) s = run ops (record_entry true now e s)
run (flush_now ∷ ops) s = run ops (flush every s)
run (query_for selects q ∷ ops) s =
    let (reply, next) = query true selects every q s in reply ∷ run ops next

-- A log without a buffer: its rows, and the number of the next one.
pub record Log : Type 0 where
  pub rows : List AccessLogRow
  pub next_id : ℕ

abbrev pub written : AccessLogRow → Log → Log
written e l = record { rows = l.rows ++ record e { id = l.next_id } ∷ []; next_id = suc l.next_id }

unfoldable pub run_log : List Op → Log → Replies
run_log [] l = []
run_log (record_at now e ∷ ops) l =
    run_log ops (written (record { id = 0; entry = e; created_at = now }) l)
run_log (flush_now ∷ ops) l = run_log ops l
run_log (query_for selects q ∷ ops) l =
    (if selects && is_natural q.offset then ok (select_rows q l.rows) else err query_failed)
    ∷ run_log ops l

-- the entries waiting, written one after the other
unfoldable pub all_written : List AccessLogRow → Log → Log
all_written [] l = l
all_written (e ∷ entries) l = all_written entries (written e l)

abbrev pub log_of : AccessLogStore → Log
log_of s = all_written s.buf (record { rows = s.rows; next_id = s.next_id })

all_written-append :
    (entries : List AccessLogRow) (e : AccessLogRow) (l : Log)
    → all_written (entries ++ e ∷ []) l ≡ written e (all_written entries l)
unfolding all_written
all_written-append [] e l = refl
all_written-append (x ∷ entries) e l = all_written-append entries e (written x l)

-- a store without waiting entries
abbrev flushed : Log → AccessLogStore
flushed l = record { rows = l.rows; next_id = l.next_id; buf = [] }

insert_rows-every :
    (entries : List AccessLogRow) (l : Log)
    → insert_rows every entries (flushed l) ≡ flushed (all_written entries l)
unfolding insert_rows all_written
insert_rows-every [] l = refl
insert_rows-every (e ∷ entries) l = insert_rows-every entries (written e l)

flush-every : (s : AccessLogStore) → flush every s ≡ flushed (log_of s)
unfolding flush all_written
flush-every s = go s.buf s.rows s.next_id
  where
    go :
        (buf rows : List AccessLogRow) (n : ℕ)
        → flush every (record { rows = rows; next_id = n; buf = buf })
          ≡ flushed (all_written buf (record { rows = rows; next_id = n }))
    go [] rows n = refl
    go (e ∷ buf) rows n = insert_rows-every (e ∷ buf) (record { rows = rows; next_id = n })

-- If the calls follow each other, so that none begins while a flush is still inserting, and every
-- INSERT goes through, no sequence of records, flushes and queries tells the store with its buffer
-- from a log that writes each entry at once.
pub run_refines : (ops : List Op) (s : AccessLogStore) → run ops s ≡ run_log ops (log_of s)
unfolding run run_log query record_entry all_written
run_refines [] s = refl
run_refines (record_at now e ∷ ops) s =
    run_refines ops _ ∙ ap (run_log ops) (all_written-append s.buf _ _)
run_refines (flush_now ∷ ops) s = rw flush-every (run_refines ops (flushed (log_of s)))
run_refines (query_for selects q ∷ ops) s =
    rw (flush-every, run_refines ops (flushed (log_of s))) refl

abbrev IsReply : AccessLogQuery → Log → Result LogError (List AccessLogRow) → Type 0
IsReply q l (err e) = Unit
IsReply q l (ok page) =
    IsPage (λ r. r.created_at) (is_wanted q) (default_limit q.limit) (pos_part q.offset) l.rows page

-- If the log is enabled, no other flush is under way, every INSERT goes through and a query is
-- answered, then the answer is the page that it asks for of the entries that its filter picks, those
-- in the buffer included: of all of these, sorted newest first, the entries after the first `offset`,
-- as many as the limit allows.
pub query-IsPage :
    (q : AccessLogQuery) (s : AccessLogStore) (page : List AccessLogRow)
    → (query true true every q s).0 ≡ ok page
    → IsPage
        (λ r. r.created_at)
        (is_wanted q)
        (default_limit q.limit)
        (pos_part q.offset)
        (log_of s).rows
        page
unfolding query select_rows
query-IsPage q s page e = subst (IsReply q (log_of s)) e answered
  where
    paged : IsReply q (log_of s) (ok (select_rows q (log_of s).rows))
    paged = take-IsPage _ (is_wanted q) (default_limit q.limit) (pos_part q.offset) (log_of s).rows

    answered : IsReply q (log_of s) (query true true every q s).0
    answered =
        rw flush-every
          (elim (Bool-cases (is_natural q.offset)) [ inl h ↦ rw h paged | inr h ↦ rw h tt ])
