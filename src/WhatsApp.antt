-- ===== src/WhatsApp.antt =====
-- go.mau.fi/whatsmeow/types, as far as the gateway uses it: addresses (JIDs) and their servers.
pub mod Pairs
use wa_gateway.Base.{String, ◌≡◌, Option}

pub record JidTypes : Type 1 where
  pub Jid : Type 0
  -- fields of types.JID
  pub user : Jid → String
  pub server : Jid → String
  -- types.NewJID
  pub new_jid : String → String → Jid
  -- types.ParseJID
  pub parse : String → Option Jid
  -- JID.String
  pub to_string : Jid → String
  -- types.DefaultUserServer, types.HiddenUserServer, types.GroupServer
  pub default_user_server : String
  pub hidden_user_server : String
  pub group_server : String
  pub user-new_jid : (u s : String) → user (new_jid u s) ≡ u
  pub server-new_jid : (u s : String) → server (new_jid u s) ≡ s
