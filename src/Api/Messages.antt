-- ===== src/Api/Messages.antt =====
-- The handlers of stored messages: handleListMessages, handleMessageStatus, handleGetMedia, and those
-- of the access log (internal/api/server.go). Of an error's reply the status is kept.
use Prim.Native.String.{◌++◌}
use wa_gateway.Base.{
  ℕ, String, Bool, true, false, not, ◌&&◌, ◌==◌, List, [], ◌∷◌, Option, none, some, pos, ltb,
  if◌then◌else◌, Result, ok, err, Assoc, lookup, map, has_suffix, trim, length, is_empty,
}
use wa_gateway.WhatsApp.{JidTypes}
use wa_gateway.Messages.{StoredMessage, MessageStatus, status_by_ids}
use wa_gateway.Messages.Query.{MessageQuery, query_messages, message_by_id, StoreError}
use wa_gateway.Archive.Receipts.{Receipt, ReceiptRow, receipts_for}
use wa_gateway.AccessLog.{AccessLogRow, AccessLogStore, query, LogError}
use wa_gateway.Api.Sessions.{Reply, replied, refused}
use wa_gateway.Api.Params.{int_param, parse_access_log_query}

-- the query parameters of handleListMessages
pub record ListParams : Type 0 where
  pub session : String
  pub chat : String
  pub order : String
  pub limit : String
  pub before : String
  pub since : String
  pub receipts : String

-- a message with the fields that the handler derives
pub record ListedMessage : Type 0 where
  pub message : StoredMessage
  pub media_url : String
  pub sender_phone : String
  pub receipts : List Receipt

abbrev pub query_of : ListParams → MessageQuery
query_of p = record {
  session = p.session;
  chat = p.chat;
  limit = int_param p.limit (pos 0);
  before = int_param p.before (pos 0);
  after = int_param p.since (pos 0);
  order = p.order;
}

-- the senders with a privacy alias, and the ids of the outgoing messages
unfoldable pub lids_of : List StoredMessage → List String
lids_of [] = []
lids_of (m ∷ rows) =
    let rest = lids_of rows in if has_suffix m.sender "@lid" then m.sender ∷ rest else rest

unfoldable pub out_ids : List StoredMessage → List String
out_ids [] = []
out_ids (m ∷ rows) = let rest = out_ids rows in if m.from_me then m.id ∷ rest else rest

abbrev or_same : String → Option String → String
or_same s none = s
or_same s (some t) = t

abbrev first_session : String → List StoredMessage → String
first_session session [] = session
first_session session (m ∷ rows) = if session == "" then m.session else session

abbrev or_none : Option (List Receipt) → List Receipt
or_none none = []
or_none (some rs) = rs

module _ (types : JidTypes) where
  open types use {Jid, user, server, parse, default_user_server}

  abbrev phone_of : Option Jid → String
  phone_of none = ""
  phone_of (some j) = if server j == default_user_server then user j else ""

  -- `escape` is url.QueryEscape
  abbrev pub listed :
      (String → String) → Assoc String → Assoc (List Receipt) → StoredMessage → ListedMessage
  listed escape numbers receipts m = record {
    message = m;
    media_url =
        if m.media_key == ""
        then ""
        else "/messages/" ++ (m.id ++ ("/media?session=" ++ escape m.session));
    sender_phone = phone_of (parse (or_same m.sender (lookup m.sender numbers)));
    receipts = if m.from_me then or_none (lookup m.id receipts) else [];
  }

  abbrev listed_all :
      (String → String)
      → Assoc String
      → List StoredMessage
      → Option (Assoc (List Receipt))
      → Reply (List ListedMessage)
  listed_all escape numbers rows none = refused 500
  listed_all escape numbers rows (some receipts) =
      replied 200 (map (listed escape numbers receipts) rows)

  abbrev asked_receipts :
      Bool → ListParams → List StoredMessage → List ReceiptRow → Option (Assoc (List Receipt))
  asked_receipts reads p rows receipts =
      if p.receipts == "true" && not (is_empty (out_ids rows))
      then receipts_for reads
          (if first_session p.session rows == "" then "default" else first_session p.session rows)
          (out_ids rows) receipts
      else some []

  abbrev listed_from :
      (String → String)
      → (List String → Assoc String)
      → Bool
      → ListParams
      → List ReceiptRow
      → Result StoreError (List StoredMessage)
      → Reply (List ListedMessage)
  listed_from escape resolve reads p receipts (err e) = refused 500
  listed_from escape resolve reads p receipts (ok rows) =
      listed_all escape (if is_empty (lids_of rows) then [] else resolve (lids_of rows)) rows
        (asked_receipts reads p rows receipts)

  -- handleListMessages; `resolve` is ResolveLIDs of the session asked for, empty where there is none
  unfoldable pub handle_list_messages :
      (String → String)
      → (List String → Assoc String)
      → Bool
      → Bool
      → Bool
      → ListParams
      → List StoredMessage
      → List ReceiptRow
      → Reply (List ListedMessage)
  handle_list_messages escape resolve active selects reads p rows receipts =
      if not active
      then refused 501
      else listed_from escape resolve reads p receipts
          (query_messages active selects (query_of p) rows)

abbrev pub max_status_ids : ℕ
max_status_ids = 1000

unfoldable pub trimmed_ids : List String → List String
trimmed_ids [] = []
trimmed_ids (id ∷ ids) =
    let rest = trimmed_ids ids in if trim id == "" then rest else trim id ∷ rest

abbrev status_reply : Option (List MessageStatus) → Reply (List MessageStatus)
status_reply none = refused 500
status_reply (some results) = replied 200 results

-- handleMessageStatus: the body is the session and the ids; `selects` says whether the SELECT goes
-- through
unfoldable pub handle_message_status :
    Bool → Bool → Option (String × List String) → List StoredMessage → Reply (List MessageStatus)
handle_message_status false selects body rows = refused 501
handle_message_status true selects none rows = refused 400
handle_message_status true selects (some (session, raw)) rows =
    if is_empty (trimmed_ids raw)
    then refused 400
    else if ltb max_status_ids (length (trimmed_ids raw))
    then refused 400
    else if not selects
    then refused 500
    else status_reply (status_by_ids true session (trimmed_ids raw) rows)

-- a media reply: the Content-Type, the file's name, and the object's key
abbrev pub MediaReply : Type 0
MediaReply = String × String × String

abbrev media_found : (String → Bool) → String → StoredMessage → Reply MediaReply
media_found opens chat m =
    if not (chat == "") && not (m.chat == chat)
    then refused 404
    else if m.media_key == ""
    then refused 404
    else if not (opens m.media_key)
    then refused 404
    else replied 200 (
      if m.mimetype == "" then "application/octet-stream" else m.mimetype,
      m.filename,
      m.media_key,
    )

abbrev media_reply :
    (String → Bool) → String → Result StoreError (Option StoredMessage) → Reply MediaReply
media_reply opens chat (err e) = refused 500
media_reply opens chat (ok none) = refused 404
media_reply opens chat (ok (some m)) = media_found opens chat m

-- handleGetMedia; `opens` says which objects the media store opens
unfoldable pub handle_get_media :
    Bool → Bool → (String → Bool) → String → String → String → List StoredMessage → Reply MediaReply
handle_get_media active selects opens session chat id rows =
    if not active
    then refused 501
    else media_reply opens chat (message_by_id active selects session id rows)

abbrev logs_reply : Result LogError (List AccessLogRow) → Reply (List AccessLogRow)
logs_reply (ok logs) = replied 200 logs
logs_reply (err e) = refused 500

module _ (enabled selects : Bool) (goes : ℕ → Bool) (limit since : String)
    (s : AccessLogStore) where
  -- handleListAccessLogs
  unfoldable pub handle_list_access_logs : String → Reply (List AccessLogRow) × AccessLogStore
  handle_list_access_logs key =
      let (reply, next) = query enabled selects goes (parse_access_log_query key limit since) s in
      (logs_reply reply, next)

  -- handleKeyAccessLogs, of the key in the path
  unfoldable pub handle_key_access_logs :
      String → String → Reply (List AccessLogRow) × AccessLogStore
  handle_key_access_logs key id =
      let asked = record (parse_access_log_query key limit since) { key_id = id } in
      let (reply, next) = query enabled selects goes asked s in (logs_reply reply, next)
