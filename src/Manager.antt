-- ===== src/Manager.antt =====
-- The sessions of the gateway: internal/gateway/manager.go, over the rows of gw_sessions. A live
-- session is known by a number that stands for its pointer. Connecting to WhatsApp, its device store
-- and the wrappers that only call another component are left out.
pub mod Steps
pub mod Interleaved
pub mod Alone
pub mod Examples
use wa_gateway.Base.{
  ℕ, suc, String, Bool, true, false, not, ◌&&◌, ◌||◌, ◌==◌, eqb, List, [], ◌∷◌, ◌++◌, Option, none,
  some, Result, ok, err, if◌then◌else◌, Assoc, lookup, insert, delete, count_if, filter_if, map,
}
use wa_gateway.Retention.{Tables, PurgeAnswers, delete_session}

pub data ManagerError : Type 0 where
  name_required session_exists session_not_found persist_failed delete_failed start_failed :
      ManagerError

-- a row of gw_sessions
pub record SessionRow : Type 0 where
  pub name : String
  pub jid : String
  pub owner_key : String
  pub paired_at : ℕ
  pub last_group_at : ℕ

-- what is kept of a live session: its pointer, and the two times that a start restores
pub record LiveSession : Type 0 where
  pub pointer : ℕ
  pub paired_at : Option ℕ
  pub last_group_create : Option ℕ

-- the table and the map; `next` is the pointer of the next session
pub record ManagerState : Type 0 where
  pub rows : List SessionRow
  pub sessions : Assoc LiveSession
  pub next : ℕ

-- the primary key
abbrev pub is_named : String → SessionRow → Bool
is_named name r = r.name == name

abbrev pub row_known : String → List SessionRow → Bool
row_known name [] = false
row_known name (r ∷ rows) = is_named name r || row_known name rows

abbrev pub new_row : String → String → SessionRow
new_row name owner = record {
  name = name;
  jid = "";
  owner_key = owner;
  paired_at = 0;
  last_group_at = 0;
}

-- the INSERT of Create
abbrev pub insert_row : Bool → String → String → List SessionRow → Option (List SessionRow)
insert_row goes name owner rows =
    if not goes || row_known name rows then none else some (rows ++ new_row name owner ∷ [])

-- newSession
abbrev pub fresh : ℕ → LiveSession
fresh pointer = record { pointer = pointer; paired_at = none; last_group_create = none }

-- m.sessions[name] = sess
abbrev pub register : String → ManagerState → ManagerState
register name st = record st {
  sessions = insert name (fresh st.next) st.sessions;
  next = suc st.next;
}

abbrev pub is_some {ℓ} : {A : Type ℓ} → Option A → Bool
is_some none = false
is_some (some a) = true

abbrev pub is_live : String → Assoc LiveSession → Bool
is_live name sessions = is_some (lookup name sessions)

-- Create: whether the INSERT goes through and whether the session starts are arguments
unfoldable pub create :
    Bool → Bool → String → String → ManagerState → Result ManagerError LiveSession × ManagerState
create goes starts name owner st =
    if name == ""
    then (err name_required, st)
    else if is_live name st.sessions
    then (err session_exists, st)
    else elim (insert_row goes name owner st.rows) [
      | none ↦ (err persist_failed, st)
      | some rows ↦ (
        if starts then ok (fresh st.next) else err start_failed,
        register name (record st { rows = rows }),
      )
    ]

abbrev pub or_default_name : String → String
or_default_name name = if name == "" then "default" else name

-- Get
unfoldable pub get : String → ManagerState → Result ManagerError LiveSession
get name st = elim (lookup (or_default_name name) st.sessions) [
  | none ↦ err session_not_found
  | some s ↦ ok s
]

-- the DELETE of Remove
abbrev pub delete_row : String → List SessionRow → List SessionRow
delete_row name rows = filter_if (λ r. not (is_named name r)) rows

-- Remove, with the stored messages of the session
unfoldable pub remove :
    Bool
    → PurgeAnswers
    → Bool
    → String
    → ManagerState
    → Tables
    → Result ManagerError (Unit {0}) × ManagerState × Tables
remove goes answers enabled name st tables =
    if not (is_live name st.sessions)
    then (err session_not_found, st, tables)
    else let gone = record st { sessions = delete name st.sessions } in
      if not goes then (err delete_failed, gone, tables) else (
        ok tt,
        record gone { rows = delete_row name st.rows },
        delete_session answers enabled name tables,
      )

-- SessionCountByKey
abbrev pub session_count_by_key : String → ManagerState → ℕ
session_count_by_key key st = count_if (λ r. r.owner_key == key) st.rows

-- an UPDATE of the row of a name
abbrev pub update_row : Bool → String → (SessionRow → SessionRow) → ManagerState → ManagerState
update_row goes name change st =
    if goes
    then record st { rows = map (λ r. if is_named name r then change r else r) st.rows }
    else st

-- bindJID and recordGroupCreated
abbrev pub bind_jid : Bool → String → String → ℕ → ManagerState → ManagerState
bind_jid goes name jid now = update_row goes name (λ r. record r { jid = jid; paired_at = now })

abbrev pub record_group_created : Bool → String → ℕ → ManagerState → ManagerState
record_group_created goes name at = update_row goes name (λ r. record r { last_group_at = at })

-- restartPairing of the session with pointer `old`
unfoldable pub restart_pairing : Bool → String → ℕ → ManagerState → ManagerState
restart_pairing goes name old st = elim (lookup name st.sessions) [
  | none ↦ st
  | some cur ↦
      if eqb cur.pointer old
      then update_row goes name (λ r. record r { jid = "" }) (register name st)
      else st
]

-- findDevice: the devices are given by the text of their address, if they have one
unfoldable pub find_device : List (Option String) → String → Option ℕ
find_device devices jid = if jid == "" then none else find_from 0 devices
  where
    find_from : ℕ → List (Option String) → Option ℕ
    find_from n [] = none
    find_from n (none ∷ rest) = find_from (suc n) rest
    find_from n (some id ∷ rest) =
        let later = find_from (suc n) rest in if id == jid then some n else later

abbrev pub if_set : ℕ → Option ℕ
if_set t = if eqb t 0 then none else some t

-- the session that Start makes of a row
abbrev pub restored : ℕ → SessionRow → LiveSession
restored pointer r = record {
  pointer = pointer;
  paired_at = if_set r.paired_at;
  last_group_create = if_set r.last_group_at;
}

-- the loop of Start
unfoldable pub start_rows : List SessionRow → ManagerState → ManagerState
start_rows [] st = st
start_rows (r ∷ rows) st =
    start_rows rows
      (record st { sessions = insert r.name (restored st.next r) st.sessions; next = suc st.next })

-- the sessions of Start: those of the rows, or "default" where there is none
unfoldable pub start : Bool → Bool → ManagerState → ManagerState
start goes starts st = elim st.rows [
  | [] ↦ (create goes starts "default" "" st).1
  | r ∷ rows ↦ start_rows (r ∷ rows) st
]
