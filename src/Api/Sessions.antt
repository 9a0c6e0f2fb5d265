-- ===== src/Api/Sessions.antt =====
-- The handlers that create and delete sessions: handleCreateSession and handleDeleteSession of
-- internal/api/server.go. A request's body is its name, or nothing where it is no JSON; of an error's
-- reply the status is kept.
use wa_gateway.Base.{
  ℕ, String, Bool, false, not, ◌&&◌, ◌==◌, Option, none, some, pos, ltb_ℤ, is_positive,
  if◌then◌else◌, Result, ok, err,
}
use wa_gateway.Keys.{ApiKey}
use wa_gateway.Retention.{Tables, PurgeAnswers}
use wa_gateway.Manager.{
  ManagerError, ManagerState, LiveSession, session_exists, session_not_found, create, remove,
  session_count_by_key,
}

-- writeJSON with a value, or writeError
pub data Reply {ℓ} (A : Type ℓ) : Type ℓ where
  replied : ℕ → A → Reply A
  refused : ℕ → Reply A

-- the owner that is recorded: the key's, unless it is the master's or there is none
abbrev pub owner_of : Option ApiKey → String
owner_of none = ""
owner_of (some key) = if key.master then "" else key.id

-- the check of the key's MaxSessions; `counts` says whether SELECT COUNT goes through
abbrev pub is_at_limit : Bool → Option ApiKey → ManagerState → Bool
is_at_limit counts none st = false
is_at_limit counts (some key) st =
    not key.master
    && is_positive key.max_sessions
    && counts
    && not (ltb_ℤ (pos (session_count_by_key key.id st)) key.max_sessions)

abbrev pub create_reply : Result ManagerError LiveSession → Reply LiveSession
create_reply (ok s) = replied 201 s
create_reply (err session_exists) = refused 409
create_reply (err _) = refused 500

-- handleCreateSession: whether the COUNT and the INSERT go through and the session starts
unfoldable pub handle_create_session :
    Bool
    → Bool
    → Bool
    → Option ApiKey
    → Option String
    → ManagerState
    → Reply LiveSession × ManagerState
handle_create_session counts goes starts key none st = (refused 400, st)
handle_create_session counts goes starts key (some name) st =
    if name == ""
    then (refused 400, st)
    else if is_at_limit counts key st
    then (refused 403, st)
    else let (result, next) = create goes starts name (owner_of key) st in
      (create_reply result, next)

abbrev pub delete_reply : Result ManagerError (Unit {0}) → Reply (Unit {0})
delete_reply (ok t) = replied 200 t
delete_reply (err session_not_found) = refused 404
delete_reply (err _) = refused 502

-- handleDeleteSession
unfoldable pub handle_delete_session :
    Bool
    → PurgeAnswers
    → Bool
    → String
    → ManagerState
    → Tables
    → Reply (Unit {0}) × ManagerState × Tables
handle_delete_session goes answers enabled name st tables =
    if name == ""
    then (refused 400, st, tables)
    else let (result, next, left) = remove goes answers enabled name st tables in
      (delete_reply result, next, left)
