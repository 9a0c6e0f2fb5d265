-- ===== src/Webhook/Content.antt =====
-- What internal/gateway/webhook.go reads off a message: extractText, quotedInfo and mediaInfo. The
-- message is a protobuf of whatsmeow; its getters that the code calls are the fields here.
use Prim.Native.String.{◌++◌}
use wa_gateway.Base.{ℕ, String, Bool, not, ◌==◌, Option, none, some, if◌then◌else◌}

-- an image, a video, a document, an audio or a sticker message
pub record MediaPart : Type 0 where
  pub caption : String
  pub file_name : String
  pub mimetype : String
  pub file_length : ℕ

pub record GroupInvite : Type 0 where
  pub group_name : String
  pub caption : String

-- The kinds of content; a location has its name and its coordinates as `%.5f,%.5f` prints them.
pub record Content : Type 0 where
  pub conversation : String
  pub extended_text : Option String
  pub image : Option MediaPart
  pub video : Option MediaPart
  pub has_ptv : Bool
  pub document : Option MediaPart
  pub audio : Option MediaPart
  pub sticker : Option MediaPart
  pub contact : Option String
  pub contacts_array : Option String
  pub location : Option (String × String)
  pub has_live_location : Bool
  pub poll_v3 : Option String
  pub poll : Option String
  pub reaction : Option String
  pub has_protocol : Bool
  pub has_sender_key : Bool
  pub group_invite : Option GroupInvite

mutual
  -- the containers of disappearing, view-once, own-device and edited messages, the content, and the
  -- ContextInfo of the text, the image, the video, the document, the audio and the sticker
  pub data WaMessage : Type 0 where
    message :
        Inner
        → Inner
        → Inner
        → Inner
        → Inner
        → Content
        → Quote
        → Quote
        → Quote
        → Quote
        → Quote
        → Quote
        → WaMessage

  -- a container that is nil or holds no message, or the message that it holds
  pub data Inner : Type 0 where
    nothing : Inner
    holding : WaMessage → Inner

  -- a ContextInfo: its StanzaID and QuotedMessage
  pub data Quote : Type 0 where
    no_context : Quote
    context : String → Inner → Quote

pub data MessageType : Type 0 where
  text image_type video_type document_type audio_type sticker_type : MessageType
  contact_type location_type poll_type reaction_type protocol_type : MessageType
  group_invite_type unknown : MessageType

abbrev invite_text : GroupInvite → String
invite_text g =
    let name = if g.group_name == "" then "grup WhatsApp" else g.group_name in
    let body = "Undangan grup: " ++ name in
    if g.caption == "" then body else body ++ ("\n" ++ g.caption)

-- the first `some` of a chain decides
abbrev case_of {ℓ κ} : {A : Type ℓ} {B : Type κ} → Option A → (A → B) → B → B
case_of none f other = other
case_of (some a) f other = f a

-- the second switch of extractText
unfoldable pub content_text : Content → String × MessageType
content_text c =
    if not (c.conversation == "")
    then (c.conversation, text)
    else case_of c.extended_text (λ t. (t, text))
        (case_of c.image (λ m. (m.caption, image_type))
          (case_of c.video (λ m. (m.caption, video_type))
            (if c.has_ptv
              then ("", video_type)
              else case_of c.document
                  (λ m. (if m.caption == "" then m.file_name else m.caption, document_type))
                  (case_of c.audio (λ m. ("", audio_type))
                    (case_of c.sticker (λ m. ("", sticker_type)) (other_text c))))))
  where
    other_text : Content → String × MessageType
    other_text c =
        case_of c.contact (λ n. ("Kontak: " ++ n, contact_type))
          (case_of c.contacts_array (λ n. ("Kontak: " ++ n, contact_type))
            (case_of c.location (λ l. ("Lokasi: " ++ (l.0 ++ (" " ++ l.1)), location_type))
              (if c.has_live_location
                then ("Lokasi langsung", location_type)
                else case_of c.poll_v3 (λ n. ("Polling: " ++ n, poll_type))
                    (case_of c.poll (λ n. ("Polling: " ++ n, poll_type))
                      (case_of c.reaction (λ t. (t, reaction_type))
                        (if c.has_protocol
                          then ("", protocol_type)
                          else if c.has_sender_key
                          then ("", protocol_type)
                          else case_of c.group_invite (λ g. (invite_text g, group_invite_type))
                              ("", unknown)))))))

-- extractText
unfoldable pub extract_text : WaMessage → String × MessageType
extract_text (message (holding m) _ _ _ _ _ _ _ _ _ _ _) = extract_text m
extract_text (message _ (holding m) _ _ _ _ _ _ _ _ _ _) = extract_text m
extract_text (message _ _ (holding m) _ _ _ _ _ _ _ _ _) = extract_text m
extract_text (message _ _ _ (holding m) _ _ _ _ _ _ _ _) = extract_text m
extract_text (message _ _ _ _ (holding m) _ _ _ _ _ _ _) = extract_text m
extract_text (message _ _ _ _ _ c _ _ _ _ _ _) = content_text c

abbrev quoted_text : Inner → String
quoted_text nothing = ""
quoted_text (holding m) = (extract_text m).0

abbrev quoted : Quote → String × String
quoted no_context = ("", "")
quoted (context id inner) = if id == "" then ("", "") else (id, quoted_text inner)

-- quotedInfo
unfoldable pub quoted_info : WaMessage → String × String
quoted_info (message _ _ _ _ _ c of_text of_image of_video of_document of_audio of_sticker) =
    case_of c.extended_text (λ m. quoted of_text)
      (case_of c.image (λ m. quoted of_image)
        (case_of c.video (λ m. quoted of_video)
          (case_of c.document (λ m. quoted of_document)
            (case_of c.audio (λ m. quoted of_audio)
              (case_of c.sticker (λ m. quoted of_sticker) ("", ""))))))

-- mediaMeta
pub record MediaMeta : Type 0 where
  pub mimetype : String
  pub filename : String
  pub file_length : ℕ

abbrev unnamed : MediaPart → Option (MediaPart × MediaMeta)
unnamed m = some (m, record { mimetype = m.mimetype; filename = ""; file_length = m.file_length })

abbrev named : MediaPart → Option (MediaPart × MediaMeta)
named m =
    some (m, record { mimetype = m.mimetype; filename = m.file_name; file_length = m.file_length })

-- mediaInfo: what to download, and its description
unfoldable pub media_info : WaMessage → Option (MediaPart × MediaMeta)
media_info (message _ _ _ _ _ c _ _ _ _ _ _) = case_of c.image unnamed (
    case_of c.video unnamed
      (case_of c.audio unnamed (case_of c.document named (case_of c.sticker unnamed none))))
