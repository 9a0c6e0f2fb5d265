-- ===== src/Messages.antt =====
-- Stored messages and their delivery status: internal/gateway/store.go, over the rows of
-- gw_messages. Whether storage is active is an argument; statements go through.
pub mod Examples
pub mod Advance
pub mod Lookup
pub mod Query
use wa_gateway.Base.{
  ℕ, String, Bool, true, false, not, ◌&&◌, ◌||◌, ◌==◌, List, [], ◌∷◌, ◌++◌, Option, none, some, ℤ,
  pos, negsuc, ltb_ℤ, eqb, if◌then◌else◌, Result, ok, err, Assoc, lookup, insert, is_empty,
}

-- The texts that a status column or a receipt can hold; `unset` is the empty text.
pub data Status : Type 0 where
  unset sent delivered read played read_self played_self : Status

-- statusRank, which the CASE expression of updateStatus repeats
abbrev pub status_rank : Status → ℤ
status_rank sent = pos 0
status_rank delivered = pos 1
status_rank read = pos 2
status_rank played = pos 3
status_rank _ = negsuc 0

-- types.ReceiptType of whatsmeow, as far as receiptStatus tells the kinds apart
pub data ReceiptType : Type 0 where
  delivered_type read_type played_type read_self_type played_self_type other_type : ReceiptType

-- receiptStatus (internal/gateway/webhook.go)
abbrev pub receipt_status : ReceiptType → Option Status
receipt_status delivered_type = some delivered
receipt_status read_type = some read
receipt_status played_type = some played
receipt_status read_self_type = some read_self
receipt_status played_self_type = some played_self
receipt_status other_type = none

-- StoredMessage, as a row of gw_messages
pub record StoredMessage : Type 0 where
  pub session : String
  pub id : String
  pub chat : String
  pub sender : String
  pub push_name : String
  pub direction : String
  pub from_me : Bool
  pub is_group : Bool
  pub kind : String
  pub body : String
  pub mimetype : String
  pub filename : String
  pub file_length : ℕ
  pub media_key : String
  pub timestamp : ℕ
  pub status : Status
  pub status_at : ℕ

-- the primary key of the table
abbrev pub is_message : String → String → StoredMessage → Bool
is_message session id m = m.session == session && m.id == id

abbrev pub holds : String → String → List StoredMessage → Bool
holds session id [] = false
holds session id (m ∷ rows) = is_message session id m || holds session id rows

-- save: ON CONFLICT (session, id) DO NOTHING
unfoldable pub save : Bool → ℕ → StoredMessage → List StoredMessage → List StoredMessage
save active now rec rows =
    if not active || holds rec.session rec.id rows
    then rows
    else rows ++ (if eqb rec.timestamp 0 then record rec { timestamp = now } else rec) ∷ []

unfoldable pub update_media_rows :
    String → String → String → String → String → ℕ → List StoredMessage → List StoredMessage
update_media_rows session id key mimetype filename size [] = []
update_media_rows session id key mimetype filename size (m ∷ rows) =
    (if is_message session id m
      then record m {
        mimetype = mimetype;
        filename = filename;
        file_length = size;
        media_key = key;
      }
      else m)
    ∷ update_media_rows session id key mimetype filename size rows

-- updateMedia
abbrev pub update_media :
    Bool → String → String → String → String → String → ℕ → List StoredMessage → List StoredMessage
update_media active session id key mimetype filename size rows =
    if active then update_media_rows session id key mimetype filename size rows else rows

abbrev pub member : String → List String → Bool
member x [] = false
member x (y ∷ ys) = x == y || member x ys

-- the row that one UPDATE of updateStatus leaves
abbrev pub advance : String → List String → Status → ℕ → StoredMessage → StoredMessage
advance session ids status ts m =
    if m.session == session
      && m.from_me
      && member m.id ids
      && ltb_ℤ (status_rank m.status) (status_rank status)
    then record m { status = status; status_at = ts }
    else m

unfoldable pub advance_rows :
    String → List String → Status → ℕ → List StoredMessage → List StoredMessage
advance_rows session ids status ts [] = []
advance_rows session ids status ts (m ∷ rows) =
    advance session ids status ts m ∷ advance_rows session ids status ts rows

unfoldable pub update_status :
    Bool → String → List String → Status → ℕ → List StoredMessage → List StoredMessage
update_status active session ids status ts rows =
    if not active || is_empty ids
    then rows
    else if ltb_ℤ (status_rank status) (pos 0)
    then rows
    else advance_rows session ids status ts rows

pub record MessageStatus : Type 0 where
  pub id : String
  pub session : String
  pub chat : String
  pub status : Status
  pub status_at : ℕ
  pub found : Bool

-- the WHERE of statusByIDs
abbrev pub is_asked : String → List String → StoredMessage → Bool
is_asked session ids m = m.from_me && member m.id ids && (session == "" || m.session == session)

abbrev pub status_of : StoredMessage → MessageStatus
status_of m = record {
  id = m.id;
  session = m.session;
  chat = m.chat;
  status = m.status;
  status_at = m.status_at;
  found = true;
}

-- the loop over the rows; a later row of the same id replaces an earlier one
unfoldable pub collect :
    String → List String → List StoredMessage → Assoc MessageStatus → Assoc MessageStatus
collect session ids [] found = found
collect session ids (m ∷ rows) found =
    collect session ids rows
      (if is_asked session ids m then insert m.id (status_of m) found else found)

abbrev pub or_unknown : String → Option MessageStatus → MessageStatus
or_unknown id (some m) = m
or_unknown id none = record {
  id = id;
  session = "";
  chat = "";
  status = unset;
  status_at = 0;
  found = false;
}

-- the loop in request order
unfoldable pub answers : Assoc MessageStatus → List String → List MessageStatus
answers found [] = []
answers found (id ∷ ids) = or_unknown id (lookup id found) ∷ answers found ids

-- statusByIDs; `none` is the error that storage is disabled
unfoldable pub status_by_ids :
    Bool → String → List String → List StoredMessage → Option (List MessageStatus)
status_by_ids active session ids rows =
    if not active then none else some (answers (collect session ids rows []) ids)
