-- ===== src/Sessions/Shared.antt =====
-- What the handlers of a session's events (internal/gateway/session.go) share: the configuration that
-- they read, the state that they change, and the kinds of messages.
use wa_gateway.Base.{ℕ, String, Bool, true, false, not, ◌&&◌, ◌||◌, ◌==◌, List, ℤ}
use wa_gateway.Messages.{StoredMessage, save}
use wa_gateway.Archive.{ChatArchive}
use wa_gateway.Archive.Filter.{ChatFilter}
use wa_gateway.Archive.Receipts.{ReceiptRow}
use wa_gateway.Retention.{active}
use wa_gateway.Webhook.{WebhookConfig}
use wa_gateway.Webhook.Queue.{Notifier}
use wa_gateway.Webhook.Content.{
  MessageType, text, image_type, video_type, document_type, audio_type, sticker_type, contact_type,
  location_type, poll_type, reaction_type, protocol_type, group_invite_type, unknown,
}

-- what the handlers read of the configuration; `filter` is the manager's
pub record EventConfig : Type 0 where
  pub webhook : WebhookConfig
  pub filter : ChatFilter
  pub store_messages : Bool
  pub store_media : Bool
  pub max_download_byte : ℤ

-- what the handlers share: the tables, the archive and the webhook's queue
pub record Shared : Type 0 where
  pub messages : List StoredMessage
  pub receipts : List ReceiptRow
  pub archive : ChatArchive
  pub notifier : Notifier

abbrev pub type_name : MessageType → String
type_name text = "text"
type_name image_type = "image"
type_name video_type = "video"
type_name document_type = "document"
type_name audio_type = "audio"
type_name sticker_type = "sticker"
type_name contact_type = "contact"
type_name location_type = "location"
type_name poll_type = "poll"
type_name reaction_type = "reaction"
type_name protocol_type = "protocol"
type_name group_invite_type = "group_invite"
type_name unknown = "unknown"

abbrev pub is_protocol : MessageType → Bool
is_protocol protocol_type = true
is_protocol _ = false

abbrev pub is_reaction : MessageType → Bool
is_reaction reaction_type = true
is_reaction _ = false

-- neither a control frame nor the removal of a reaction
abbrev pub is_conversation : String × MessageType → Bool
is_conversation (body, kind) = not (is_protocol kind || (is_reaction kind && body == ""))

-- the store's save, on what is shared
abbrev pub store_save : EventConfig → ℕ → StoredMessage → Shared → Shared
store_save cfg now rec sh = record sh {
  messages = save (active cfg.store_messages sh.archive) now rec sh.messages;
}
