-- ===== src/Webhook.antt =====
-- The webhook: internal/gateway/webhook.go and WantsEvent of internal/config/config.go. JSON,
-- base64 and HTTP are the libraries': an envelope stands for its encoding, and what a download or a
-- POST answers is an argument.
pub mod Content
pub mod Queue
pub mod Deliver
pub mod Order
pub mod Retries
pub mod Examples
use wa_gateway.Base.{
  ℕ, String, Bool, true, false, not, ◌&&◌, ◌||◌, ◌==◌, List, [], ◌∷◌, Option, none, some, ℤ, pos,
  ltb_ℤ, is_positive, if◌then◌else◌, is_empty, Result, ok, err,
}
use wa_gateway.WhatsApp.{JidTypes}
use wa_gateway.Messages.{Status, ReceiptType, receipt_status}
use wa_gateway.Webhook.Content.{
  WaMessage, MediaPart, MediaMeta, MessageType, extract_text, quoted_info, media_info,
}

-- what of config.Config the notifier reads
pub record WebhookConfig : Type 0 where
  pub url : String
  pub events : List String
  pub download_media : Bool
  pub max_download_byte : ℤ
  pub queue_size : ℤ
  pub max_retries : ℤ
  pub backoff_ms : ℤ

-- Config.WantsEvent
unfoldable pub wants_event : String → List String → Bool
wants_event name [] = false
wants_event name (e ∷ events) = e == name || e == "*" || e == "all" || wants_event name events

pub record MediaPayload : Type 0 where
  pub mimetype : String
  pub filename : String
  pub file_length : ℕ
  pub data_base64 : String
  pub error : String

pub record MessagePayload : Type 0 where
  pub id : String
  pub timestamp : ℕ
  pub from : String
  pub sender : String
  pub sender_alt : String
  pub push_name : String
  pub from_me : Bool
  pub is_group : Bool
  pub kind : MessageType
  pub body : String
  pub reply_to_id : String
  pub reply_to_text : String
  pub has_media : Bool
  pub media : Option MediaPayload

pub record ReceiptPayload : Type 0 where
  pub chat : String
  pub sender : String
  pub message_ids : List String
  pub status : Status
  pub timestamp : ℕ
  pub is_group : Bool
  pub from_me : Bool

-- webhookEnvelope, with the session's name
pub data Envelope : Type 0 where
  message_event : String → MessagePayload → Envelope
  receipt_event : String → ReceiptPayload → Envelope

abbrev described : MediaMeta → String → String → Option MediaPayload
described mm data_base64 error = some (record {
  mimetype = mm.mimetype;
  filename = mm.filename;
  file_length = mm.file_length;
  data_base64 = data_base64;
  error = error;
})

abbrev downloaded : MediaMeta → Result String String → Option MediaPayload
downloaded mm (ok encoded) = described mm encoded ""
downloaded mm (err e) = described mm "" e

-- attachMedia: HasMedia and Media. A download answers with the bytes in base64, or with an error.
unfoldable pub attach_media :
    WebhookConfig
    → (MediaPart → Result String String)
    → Option (MediaPart × MediaMeta)
    → Bool × Option MediaPayload
attach_media cfg download none = (false, none)
attach_media cfg download (some (part, mm)) = (
  true,
  if not cfg.download_media
      then described mm "" ""
      else if is_positive cfg.max_download_byte && ltb_ℤ cfg.max_download_byte (pos mm.file_length)
      then described mm "" "file exceeds MAX_DOWNLOAD_BYTES, not downloaded"
      else downloaded mm (download part),
)

module _ (types : JidTypes) where
  open types use {Jid, to_string}

  -- types.MessageInfo; SenderAlt is `none` when it is empty
  pub record MessageInfo : Type 0 where
    pub id : String
    pub timestamp : ℕ
    pub chat : Jid
    pub sender : Jid
    pub sender_alt : Option Jid
    pub push_name : String
    pub is_from_me : Bool
    pub is_group : Bool

  -- events.Receipt
  pub record ReceiptEvent : Type 0 where
    pub chat : Jid
    pub sender : Jid
    pub sender_alt : Option Jid
    pub message_ids : List String
    pub kind : ReceiptType
    pub timestamp : ℕ
    pub is_group : Bool
    pub is_from_me : Bool

  abbrev alt_text : Option Jid → String
  alt_text none = ""
  alt_text (some j) = to_string j

  -- the payload that enqueue builds
  unfoldable pub message_payload :
      WebhookConfig → (MediaPart → Result String String) → MessageInfo → WaMessage → MessagePayload
  message_payload cfg download info msg =
      let (body, kind) = extract_text msg in
      let (reply_id, reply_text) = quoted_info msg in
      let (has_media, media) = attach_media cfg download (media_info msg) in
      record {
        id = info.id;
        timestamp = info.timestamp;
        from = to_string info.chat;
        sender = to_string info.sender;
        sender_alt = alt_text info.sender_alt;
        push_name = info.push_name;
        from_me = info.is_from_me;
        is_group = info.is_group;
        kind = kind;
        body = body;
        reply_to_id = reply_id;
        reply_to_text = reply_text;
        has_media = has_media;
        media = media;
      }

  -- what enqueue sends to the queue, if anything
  unfoldable pub message_envelope :
      WebhookConfig
      → (MediaPart → Result String String)
      → String
      → MessageInfo
      → WaMessage
      → Option Envelope
  message_envelope cfg download session info msg =
      if cfg.url == "" || not (wants_event "message" cfg.events)
      then none
      else some (message_event session (message_payload cfg download info msg))

  abbrev receipt_payload : ReceiptEvent → Status → ReceiptPayload
  receipt_payload evt status = record {
    chat = to_string evt.chat;
    sender = to_string evt.sender;
    message_ids = evt.message_ids;
    status = status;
    timestamp = evt.timestamp;
    is_group = evt.is_group;
    from_me = evt.is_from_me;
  }

  abbrev receipt_of : String → ReceiptEvent → Option Status → Option Envelope
  receipt_of session evt none = none
  receipt_of session evt (some status) =
      if is_empty evt.message_ids
      then none
      else some (receipt_event session (receipt_payload evt status))

  -- what enqueueReceipt sends to the queue, if anything
  unfoldable pub receipt_envelope : WebhookConfig → String → ReceiptEvent → Option Envelope
  receipt_envelope cfg session evt =
      if cfg.url == "" || not (wants_event "receipt" cfg.events)
      then none
      else receipt_of session evt (receipt_status evt.kind)
