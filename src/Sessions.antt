-- ===== src/Sessions.antt =====
-- One WhatsApp session: internal/gateway/session.go, and receiptParticipant of
-- internal/gateway/archive.go. Sessions holds its state and status, Sessions/Events what it does with
-- an event, Sessions/Send what it sends. What WhatsApp answers is an argument.
pub mod Shared
pub mod Events
pub mod Send
pub mod Phones
pub mod Rows
pub mod Stored
pub mod Examples
use wa_gateway.Base.{
  ℕ, ◌/◌, String, Bool, true, false, not, ◌&&◌, ◌==◌, List, [], ◌∷◌, Option, none, some,
  if◌then◌else◌,
}
use wa_gateway.Groups.Cooldown.{GroupLimits, GroupClock, group_create_allowed_at}

-- what the mutex of a session guards
pub record SessionState : Type 0 where
  pub latest_qr : String
  pub pair_error : String
  pub clock : GroupClock

-- whatsmeow.QRChannelItem: a code, the success, or anything else with the error that it may hold
pub data QrItem : Type 0 where
  code_item : String → QrItem
  success_item : QrItem
  other_item : Option String → QrItem

abbrev pub with_qr : String → String → SessionState → SessionState
with_qr qr error s = record s { latest_qr = qr; pair_error = error }

-- one turn of the loop of consumeQR
unfoldable pub consume_item : QrItem → SessionState → SessionState
consume_item (code_item code) s = with_qr code "" s
consume_item success_item s = with_qr "" "" s
consume_item (other_item none) s = s
consume_item (other_item (some e)) s = with_qr "" e s

-- consumeQR
unfoldable pub consume_qr : List QrItem → SessionState → SessionState
consume_qr [] s = s
consume_qr (item ∷ items) s = consume_qr items (consume_item item s)

-- events.PairSuccess, after bindJID
abbrev pub pair_success : ℕ → SessionState → SessionState
pair_success now s = record s {
  latest_qr = "";
  pair_error = "";
  clock = record s.clock { paired_at = some now };
}

-- CurrentQR
abbrev pub current_qr : SessionState → String
current_qr s = s.latest_qr

-- what the session asks of its client: whether it is connected and logged in, and the text of its
-- address and its push name, if it is paired
pub record Client : Type 0 where
  pub is_connected : Bool
  pub is_logged_in : Bool
  pub identity : Option (String × String)

pub record SessionStatus : Type 0 where
  pub name : String
  pub connected : Bool
  pub logged_in : Bool
  pub jid : String
  pub push_name : String
  pub has_qr : Bool
  pub pair_error : String
  pub paired_at : ℕ
  pub group_create_allowed_at : ℕ

-- IsReady
abbrev pub is_ready : Client → Bool
is_ready c = c.is_connected && c.is_logged_in

-- Time.Unix of a time in nanoseconds, 0 where there is none
abbrev pub unix_or_zero : Option ℕ → ℕ
unix_or_zero none = 0
unix_or_zero (some t) = t / 1000000000

abbrev identity_text : Option (String × String) → String × String
identity_text none = ("", "")
identity_text (some id) = id

-- Status
unfoldable pub status : GroupLimits → ℕ → String → Client → SessionState → SessionStatus
status limits now name c s = record {
  name = name;
  connected = c.is_connected;
  logged_in = c.is_logged_in;
  jid = (identity_text c.identity).0;
  push_name = (identity_text c.identity).1;
  has_qr = not (s.latest_qr == "");
  pair_error = s.pair_error;
  paired_at = unix_or_zero s.clock.paired_at;
  group_create_allowed_at = unix_or_zero (group_create_allowed_at limits now s.clock);
}
