-- ===== src/Sessions/Events.antt =====
-- What a session does with an event: handleEvent, handleReceipt, recordIncoming,
-- persistIncomingMedia and recordOutgoing (internal/gateway/session.go), and receiptParticipant
-- (internal/gateway/archive.go). The media store is an argument: the key it gives, or none.
use wa_gateway.Base.{
  ℕ, String, Bool, true, not, ◌&&◌, ◌||◌, ◌==◌, Option, none, some, pos, ltb_ℤ, is_positive, ltb,
  if◌then◌else◌, is_empty, trim, Result,
}
use wa_gateway.WhatsApp.{JidTypes}
use wa_gateway.Messages.{
  StoredMessage, Status, sent, unset, status_rank, receipt_status, update_media, update_status,
}
use wa_gateway.Archive.{ChatArchive, enabled}
use wa_gateway.Archive.Filter.{allow_chat}
use wa_gateway.Archive.Receipts.{save_receipts}
use wa_gateway.Retention.{active}
use wa_gateway.Webhook.{MessageInfo, ReceiptEvent, message_envelope, receipt_envelope}
use wa_gateway.Webhook.Queue.{offer}
use wa_gateway.Webhook.Content.{
  WaMessage, MediaPart, MediaMeta, MessageType, extract_text, media_info,
}
use wa_gateway.Sessions.Shared.{EventConfig, Shared, type_name, is_conversation, store_save}

module _ (types : JidTypes) (to_non_ad : types.Jid → types.Jid) where
  open types use {
    Jid, user, server, to_string, parse, default_user_server, hidden_user_server, group_server,
  }

  -- SenderAlt in the place of a privacy alias
  abbrev pub prefer_number : Jid → Option Jid → Jid
  prefer_number sender none = sender
  prefer_number sender (some alt) = if server sender == hidden_user_server then alt else sender

  abbrev parsed_or : Jid → Option Jid → Jid
  parsed_or j none = j
  parsed_or j (some parsed) = parsed

  abbrev resolved : (String → String) → Jid → Jid
  resolved lid_resolve j =
      if server j == hidden_user_server && not (lid_resolve (to_string j) == "")
      then parsed_or j (parse (lid_resolve (to_string j)))
      else j

  abbrev participant_text : Jid → String
  participant_text j = if server j == default_user_server then user j else to_string (to_non_ad j)

  -- receiptParticipant; `lid_resolve` is empty where there is no mapping
  unfoldable pub receipt_participant : (String → String) → Jid → Option Jid → String
  receipt_participant lid_resolve sender sender_alt =
      participant_text (resolved lid_resolve (prefer_number sender sender_alt))

  module _ (cfg : EventConfig) (session : String) where
    -- the part of handleReceipt after the webhook
    abbrev pub advanced :
        (String → Bool) → (String → String) → ReceiptEvent types → Option Status → Shared → Shared
    advanced writes lid_resolve evt none sh = sh
    advanced writes lid_resolve evt (some st) sh =
        if is_empty evt.message_ids || ltb_ℤ (status_rank st) (pos 0) then sh else record sh {
          messages =
              update_status (active cfg.store_messages sh.archive) session evt.message_ids st
                evt.timestamp sh.messages;
          receipts =
              if allow_chat cfg.filter sh.archive session (to_string evt.chat)
              then save_receipts writes session (to_string evt.chat)
                  (receipt_participant lid_resolve evt.sender evt.sender_alt) evt.message_ids st
                  evt.timestamp sh.receipts
              else sh.receipts;
        }

    -- handleReceipt
    unfoldable pub handle_receipt :
        (String → Bool) → (String → String) → ReceiptEvent types → Shared → Shared
    handle_receipt writes lid_resolve evt sh =
        advanced writes lid_resolve evt (receipt_status evt.kind) (record sh {
          notifier = offer (receipt_envelope types cfg.webhook session evt) sh.notifier;
        })

    -- the row of recordIncoming
    abbrev pub incoming_row : MessageInfo types → String × MessageType → StoredMessage
    incoming_row info (body, kind) = record {
      session = session;
      id = info.id;
      chat = to_string info.chat;
      sender = to_string (to_non_ad (prefer_number info.sender info.sender_alt));
      push_name = trim info.push_name;
      direction = if info.is_from_me then "out" else "in";
      from_me = info.is_from_me;
      is_group = info.is_group;
      kind = type_name kind;
      body = body;
      mimetype = "";
      filename = "";
      file_length = 0;
      media_key = "";
      timestamp = info.timestamp;
      status = unset;
      status_at = 0;
    }

    -- the media that recordIncoming sets off to download
    abbrev pub media_wanted : ChatArchive → String → WaMessage → Option (MediaPart × MediaMeta)
    media_wanted archive chat msg =
        if cfg.store_media || enabled session chat archive then media_info msg else none

    -- recordIncoming
    unfoldable pub record_incoming :
        ℕ → MessageInfo types → WaMessage → Shared → Shared × Option (MediaPart × MediaMeta)
    record_incoming now info msg sh =
        let chat = to_string info.chat in
        if not (allow_chat cfg.filter sh.archive session chat)
        then (sh, none)
        else if not (is_conversation (extract_text msg))
        then (sh, none)
        else (
          store_save cfg now (incoming_row info (extract_text msg)) sh,
          media_wanted sh.archive chat msg,
        )

    -- persistIncomingMedia: `download` gives the bytes' number, `put` the storage key
    unfoldable pub persist_incoming_media :
        (MediaPart → Option ℕ)
        → (String → String → Option String)
        → String
        → MediaPart × MediaMeta
        → Shared
        → Shared
    persist_incoming_media download put id (part, mm) sh =
        if is_positive cfg.max_download_byte && ltb_ℤ cfg.max_download_byte (pos mm.file_length)
        then sh
        else elim (download part) [
          | none ↦ sh
          | some size ↦ elim (put session id) [
            | none ↦ sh
            | some key ↦ record sh {
              messages =
                  update_media (active cfg.store_messages sh.archive) session id key mm.mimetype
                    mm.filename size sh.messages;
            }
          ]
        ]

    -- the event of a message: enqueue and recordIncoming
    unfoldable pub handle_message :
        (MediaPart → Result String String)
        → ℕ
        → MessageInfo types
        → WaMessage
        → Shared
        → Shared × Option (MediaPart × MediaMeta)
    handle_message download now info msg sh = record_incoming now info msg (record sh {
      notifier = offer (message_envelope types cfg.webhook download session info msg) sh.notifier;
    })

    -- what recordOutgoing knows of media: mimetype, name and number of bytes
    abbrev pub OutgoingMedia : Type 0
    OutgoingMedia = String × String × ℕ

    abbrev pub outgoing_row : ℕ → String → Jid → String → String → String → StoredMessage
    outgoing_row now own j id kind body = record {
      session = session;
      id = id;
      chat = to_string j;
      sender = own;
      push_name = "";
      direction = "out";
      from_me = true;
      is_group = server j == group_server;
      kind = kind;
      body = body;
      mimetype = "";
      filename = "";
      file_length = 0;
      media_key = "";
      timestamp = now;
      status = sent;
      status_at = now;
    }

    abbrev pub with_media :
        (String → String → Option String)
        → Bool
        → Option OutgoingMedia
        → StoredMessage
        → StoredMessage
    with_media put wanted none rec = rec
    with_media put wanted (some (mimetype, filename, size)) rec =
        if not (wanted && ltb 0 size) then rec else elim (put session rec.id) [
          | none ↦ rec
          | some key ↦ record rec {
            media_key = key;
            mimetype = mimetype;
            filename = filename;
            file_length = size;
          }
        ]

    -- recordOutgoing; `own` is the text of the session's own address, or empty
    unfoldable pub record_outgoing :
        (String → String → Option String)
        → ℕ
        → String
        → Jid
        → String
        → String
        → String
        → Option OutgoingMedia
        → Shared
        → Shared
    record_outgoing put now own j id kind body media sh =
        let chat = to_string j in
        if not (allow_chat cfg.filter sh.archive session chat)
        then sh
        else store_save cfg now
            (with_media put (cfg.store_media || enabled session chat sh.archive) media
              (outgoing_row now own j id kind body))
            sh
