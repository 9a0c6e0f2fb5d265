-- ===== src/Sessions/Send.antt =====
-- What a session sends: quoteContext, SendTextQuoted, SendImage, SendFile and SendVoice
-- (internal/gateway/session.go). The upload, the sending and http.DetectContentType are arguments.
use wa_gateway.Base.{
  ℕ, String, Bool, true, false, ◌==◌, Option, none, some, if◌then◌else◌, Result, ok, err,
  after_prefix,
}
use wa_gateway.WhatsApp.{JidTypes}
use wa_gateway.Phone.Recipient.{JidError, parse_jid}
use wa_gateway.Sessions.Shared.{EventConfig, Shared}
use wa_gateway.Sessions.Events.{record_outgoing}

pub data SendError : Type 0 where
  bad_recipient : JidError → SendError
  upload_failed send_failed : String → SendError

pub record QuoteRef : Type 0 where
  pub id : String
  pub preview : String
  pub from_me : Bool

-- waProto.ContextInfo: StanzaID, Participant and the quoted conversation
pub record ContextInfo : Type 0 where
  pub stanza_id : String
  pub participant : String
  pub quoted : String

-- MediaInput; `size` is the number of its bytes
pub record MediaInput : Type 0 where
  pub size : ℕ
  pub mimetype : String
  pub filename : String
  pub caption : String
  pub seconds : ℕ
  pub quote : Option QuoteRef

-- whatsmeow.UploadResponse
pub record Upload : Type 0 where
  pub url : String
  pub direct_path : String
  pub media_key : String
  pub file_enc_sha256 : String
  pub file_sha256 : String
  pub file_length : ℕ

-- the caption, the file's name and the seconds are those of the kinds that have them
pub record MediaMessage : Type 0 where
  pub caption : Option String
  pub file_name : Option String
  pub seconds : Option ℕ
  pub is_ptt : Bool
  pub mimetype : String
  pub upload : Upload
  pub context : Option ContextInfo

-- waProto.Message, as the session builds it
pub data OutMessage : Type 0 where
  conversation : String → OutMessage
  extended : String → ContextInfo → OutMessage
  image document audio : MediaMessage → OutMessage

module _ (types : JidTypes) (to_non_ad : types.Jid → types.Jid) where
  open types use {Jid, to_string}

  abbrev quoted_participant : Bool → Option Jid → Jid → String
  quoted_participant true (some own) chat = to_string (to_non_ad own)
  quoted_participant true none chat = to_string (to_non_ad chat)
  quoted_participant false own chat = to_string (to_non_ad chat)

  -- quoteContext
  unfoldable pub quote_context : Option Jid → Jid → Option QuoteRef → Option ContextInfo
  quote_context own chat none = none
  quote_context own chat (some q) =
      if q.id == ""
      then none
      else some (record {
        stanza_id = q.id;
        participant = quoted_participant q.from_me own chat;
        quoted = q.preview;
      })

  abbrev own_text : Option Jid → String
  own_text none = ""
  own_text (some own) = to_string own

  module _ (cfg : EventConfig) (session country : String) (own : Option Jid)
      (send : Jid → OutMessage → Result String String) (put : String → String → Option String)
      (now : ℕ) where
    -- SendMessage and recordOutgoing
    abbrev pub sent_and_recorded :
        Jid
        → OutMessage
        → String
        → String
        → Option (String × String × ℕ)
        → Shared
        → Result SendError String × Shared
    sent_and_recorded j msg kind body media sh = elim (send j msg) [
      | err e ↦ (err (send_failed e), sh)
      | ok id ↦ (
        ok id,
        record_outgoing types to_non_ad cfg session put now (own_text own) j id kind body media sh,
      )
    ]

    abbrev text_message : String → Option ContextInfo → OutMessage
    text_message body none = conversation body
    text_message body (some context) = extended body context

    abbrev text_to :
        Result JidError Jid → String → Option QuoteRef → Shared → Result SendError String × Shared
    text_to (err e) body quote sh = (err (bad_recipient e), sh)
    text_to (ok j) body quote sh =
        sent_and_recorded j (text_message body (quote_context own j quote)) "text" body none sh

    -- SendTextQuoted; SendText is the case without a quote
    unfoldable pub send_text_quoted :
        String → String → Option QuoteRef → Shared → Result SendError String × Shared
    send_text_quoted to body quote sh = text_to (parse_jid types to country) body quote sh

    -- A kind of media: how the message is built, its name, and the caption that is recorded.
    pub record MediaKind : Type 0 where
      pub build : MediaMessage → OutMessage
      pub kind : String
      pub caption : MediaInput → Option String
      pub body : MediaInput → String
      pub file_name : MediaInput → Option String
      pub seconds : MediaInput → Option ℕ
      pub is_ptt : Bool
      -- the mimetype where none is given
      pub detected : String

    abbrev mimetype_of : MediaKind → MediaInput → String
    mimetype_of k input = if input.mimetype == "" then k.detected else input.mimetype

    abbrev media_message : MediaKind → MediaInput → Jid → Upload → MediaMessage
    media_message k input j up = record {
      caption = k.caption input;
      file_name = k.file_name input;
      seconds = k.seconds input;
      is_ptt = k.is_ptt;
      mimetype = mimetype_of k input;
      upload = up;
      context = quote_context own j input.quote;
    }

    abbrev uploaded :
        MediaKind
        → MediaInput
        → Jid
        → Result String Upload
        → Shared
        → Result SendError String × Shared
    uploaded k input j (err e) sh = (err (upload_failed e), sh)
    uploaded k input j (ok up) sh =
        sent_and_recorded j (k.build (media_message k input j up)) k.kind (k.body input)
          (some (mimetype_of k input, input.filename, input.size)) sh

    abbrev media_to :
        MediaKind
        → Result String Upload
        → Result JidError Jid
        → MediaInput
        → Shared
        → Result SendError String × Shared
    media_to k upload (err e) input sh = (err (bad_recipient e), sh)
    media_to k upload (ok j) input sh = uploaded k input j upload sh

    abbrev is_image_type : Option String → Bool
    is_image_type none = false
    is_image_type (some rest) = true

    module _ (upload : Result String Upload) (detect : String) where
      -- SendImage
      unfoldable pub send_image : String → MediaInput → Shared → Result SendError String × Shared
      send_image to input sh =
          media_to
            (record {
              build = image;
              kind = "image";
              caption = λ m. some m.caption;
              body = λ m. m.caption;
              file_name = λ m. none;
              seconds = λ m. none;
              is_ptt = false;
              detected =
                  if is_image_type (after_prefix "image/" detect) then detect else "image/jpeg";
            })
            upload (parse_jid types to country) input sh

      -- SendFile
      unfoldable pub send_file : String → MediaInput → Shared → Result SendError String × Shared
      send_file to input sh =
          media_to
            (record {
              build = document;
              kind = "document";
              caption = λ m. some m.caption;
              body = λ m. m.caption;
              file_name = λ m. some (if m.filename == "" then "file" else m.filename);
              seconds = λ m. none;
              is_ptt = false;
              detected = detect;
            })
            upload (parse_jid types to country) input sh

      -- SendVoice
      unfoldable pub send_voice : String → MediaInput → Shared → Result SendError String × Shared
      send_voice to input sh =
          media_to
            (record {
              build = audio;
              kind = "audio";
              caption = λ m. none;
              body = λ m. "";
              file_name = λ m. none;
              seconds = λ m. some m.seconds;
              is_ptt = true;
              detected = "audio/ogg; codecs=opus";
            })
            upload (parse_jid types to country) input sh
