-- ===== src/Archive.antt =====
-- The chats that are archived at run time: chatArchive of internal/gateway/archive.go, over the rows
-- of gw_chat_archive. Session names come without "|" where a theorem says so.
pub mod Filter
pub mod Rows
pub mod Loaded
pub mod Receipts
pub mod Allowed
pub mod Examples
use Prim.Native.String
use wa_gateway.Base.{
  ℕ, String, Bool, true, false, not, ◌&&◌, ◌||◌, ◌==◌, List, [], ◌∷◌, ◌++◌, Option, none, some,
  Result, ok, err, if◌then◌else◌, Assoc, lookup, insert, delete, is_empty, trim,
}

pub data ArchiveError : Type 0 where
  chat_required archive_failed : ArchiveError

-- a row of gw_chat_archive
pub record ArchiveRow : Type 0 where
  pub session : String
  pub chat : String
  pub updated_at : ℕ

-- the table and the set in memory, which holds session + "|" + chat
pub record ChatArchive : Type 0 where
  pub rows : List ArchiveRow
  pub set : Assoc Bool

abbrev pub chat_key : String → String → String
chat_key session chat = String.◌++◌ session (String.◌∷◌ "|" chat)

abbrev pub row_key : ArchiveRow → String
row_key r = chat_key r.session r.chat

-- the loop of load
unfoldable pub load_set : List ArchiveRow → Assoc Bool → Assoc Bool
load_set [] set = set
load_set (r ∷ rows) set = load_set rows (insert (row_key r) true set)

-- load
unfoldable pub load : Bool → ChatArchive → ChatArchive
load reads a = if reads then record a { set = load_set a.rows [] } else a

abbrev pub or_default_session : String → String
or_default_session session = if session == "" then "default" else session

-- the value of a map of Booleans at a key
abbrev pub or_false : Option Bool → Bool
or_false none = false
or_false (some b) = b

unfoldable pub enabled : String → String → ChatArchive → Bool
enabled session chat a = or_false (lookup (chat_key (or_default_session session) chat) a.set)

abbrev pub any : ChatArchive → Bool
any a = not (is_empty a.set)

abbrev pub is_row : String → String → ArchiveRow → Bool
is_row session chat r = r.session == session && r.chat == chat

-- INSERT … ON CONFLICT (session, chat) DO UPDATE SET updated_at
unfoldable pub upsert : String → String → ℕ → List ArchiveRow → List ArchiveRow
upsert session chat now [] = record { session = session; chat = chat; updated_at = now } ∷ []
upsert session chat now (r ∷ rows) =
    let rest = upsert session chat now rows in
    if is_row session chat r then record r { updated_at = now } ∷ rows else r ∷ rest

-- DELETE … WHERE session = ? AND chat = ?
unfoldable pub remove : String → String → List ArchiveRow → List ArchiveRow
remove session chat [] = []
remove session chat (r ∷ rows) =
    let rest = remove session chat rows in if is_row session chat r then rest else r ∷ rest

-- what setEnabled does once the names are settled
unfoldable pub apply_enabled : String → String → Bool → ℕ → ChatArchive → ChatArchive
apply_enabled session chat on now a =
    if on
    then record {
      rows = upsert session chat now a.rows;
      set = insert (chat_key session chat) true a.set;
    }
    else record { rows = remove session chat a.rows; set = delete (chat_key session chat) a.set }

-- setEnabled, with no other call of it between the statement, which runs without the lock, and the
-- change of the set; `writes` says whether the statement goes through
unfoldable pub set_enabled :
    Bool → String → String → Bool → ℕ → ChatArchive → ChatArchive × Result ArchiveError (Unit {0})
set_enabled writes session chat on now a =
    if trim chat == ""
    then (a, err chat_required)
    else if not writes
    then (a, err archive_failed)
    else (apply_enabled (or_default_session session) (trim chat) on now a, ok tt)
