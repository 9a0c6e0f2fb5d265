-- ===== src/Sessions/Stored.antt =====
-- Which chats the handlers of a session's events (internal/gateway/session.go) store messages of.
use wa_gateway.Base.{
  ℕ, String, Bool, true, not, ◌&&◌, ◌||◌, ◌≡◌, List, [], ◌∷◌, Option, none, some, pos, ltb_ℤ,
  is_positive, ltb, is_empty, Result, Bool-cases, Option-cases, inl, inr,
}
use wa_gateway.WhatsApp.{JidTypes}
use wa_gateway.Messages.{StoredMessage, Status, status_rank, receipt_status}
use wa_gateway.Archive.{ChatArchive}
use wa_gateway.Archive.Filter.{allow_chat}
use wa_gateway.Retention.{active}
use wa_gateway.Webhook.{MessageInfo, ReceiptEvent}
use wa_gateway.Webhook.Content.{WaMessage, MediaPart, MediaMeta, extract_text}
use wa_gateway.Sessions.Shared.{EventConfig, Shared, is_conversation}
use wa_gateway.Sessions.Events.{
  advanced, handle_receipt, incoming_row, record_incoming, persist_incoming_media, handle_message,
  with_media, record_outgoing,
}
use wa_gateway.Sessions.Rows.{
  AllAllowed, AllAllowed-save, AllAllowed-update_status, AllAllowed-update_media,
}

module _ (types : JidTypes) (to_non_ad : types.Jid → types.Jid) (cfg : EventConfig) where
  open types use {Jid, to_string}

  -- every stored row passes the filter, with the archive as it is
  abbrev pub IsFiltered : Shared → Type 0
  IsFiltered sh = AllAllowed cfg.filter sh.archive sh.messages

  module _ (session : String) where
    IsFiltered-record_incoming :
        (now : ℕ) (info : MessageInfo types) (msg : WaMessage) (sh : Shared)
        → IsFiltered sh
        → IsFiltered (record_incoming types to_non_ad cfg session now info msg sh).0
    unfolding record_incoming
    IsFiltered-record_incoming now info msg sh h =
        elim (Bool-cases (allow_chat cfg.filter sh.archive session (to_string info.chat))) [
          | inr a ↦ rw a h
          | inl a ↦ rw a (elim (Bool-cases (is_conversation (extract_text msg))) [
            | inr c ↦ rw c h
            | inl c ↦ rw c (
                AllAllowed-save cfg.filter sh.archive (active cfg.store_messages sh.archive) now
                  (incoming_row types to_non_ad cfg session info (extract_text msg)) sh.messages a
                  h)
          ])
        ]

    IsFiltered-handle_message :
        (download : MediaPart → Result String String) (now : ℕ) (info : MessageInfo types)
        (msg : WaMessage) (sh : Shared)
        → IsFiltered sh
        → IsFiltered (handle_message types to_non_ad cfg session download now info msg sh).0
    unfolding handle_message
    IsFiltered-handle_message download now info msg sh h =
        IsFiltered-record_incoming now info msg _ h

    IsFiltered-advanced :
        (writes : String → Bool) (lid_resolve : String → String) (evt : ReceiptEvent types)
        (st : Option Status) (sh : Shared)
        → IsFiltered sh
        → IsFiltered (advanced types to_non_ad cfg session writes lid_resolve evt st sh)
    IsFiltered-advanced writes lid_resolve evt none sh h = h
    IsFiltered-advanced writes lid_resolve evt (some st) sh h =
        elim (Bool-cases (is_empty evt.message_ids || ltb_ℤ (status_rank st) (pos 0))) [
          | inl e ↦ rw e h
          | inr e ↦ rw e (
              AllAllowed-update_status cfg.filter sh.archive (active cfg.store_messages sh.archive)
                session evt.message_ids st evt.timestamp sh.messages h)
        ]

    IsFiltered-handle_receipt :
        (writes : String → Bool) (lid_resolve : String → String) (evt : ReceiptEvent types)
        (sh : Shared)
        → IsFiltered sh
        → IsFiltered (handle_receipt types to_non_ad cfg session writes lid_resolve evt sh)
    unfolding handle_receipt
    IsFiltered-handle_receipt writes lid_resolve evt sh h =
        IsFiltered-advanced writes lid_resolve evt (receipt_status evt.kind) _ h

    IsFiltered-persist_incoming_media :
        (download : MediaPart → Option ℕ) (put : String → String → Option String) (id : String)
        (media : MediaPart × MediaMeta) (sh : Shared)
        → IsFiltered sh
        → IsFiltered (persist_incoming_media types to_non_ad cfg session download put id media sh)
    unfolding persist_incoming_media
    IsFiltered-persist_incoming_media download put id (part, mm) sh h =
        elim (Bool-cases
          (is_positive cfg.max_download_byte && ltb_ℤ cfg.max_download_byte (pos mm.file_length))) [
            | inl e ↦ rw e h
            | inr e ↦ rw e (elim (Option-cases (download part)) [
              | inl n ↦ rw n h
              | inr (size, n) ↦ rw n (elim (Option-cases (put session id)) [
                | inl k ↦ rw k h
                | inr (key, k) ↦ rw k (
                    AllAllowed-update_media cfg.filter sh.archive
                      (active cfg.store_messages sh.archive) session id key mm.mimetype mm.filename
                      size sh.messages h)
              ])
            ])
          ]

    with_media-same :
        (cfg_archive : ChatArchive) (put : String → String → Option String) (wanted : Bool)
        (media : Option (String × String × ℕ)) (m : StoredMessage)
        → allow_chat cfg.filter cfg_archive m.session m.chat ≡ true
        → allow_chat cfg.filter cfg_archive
            (with_media types to_non_ad cfg session put wanted media m).session
            (with_media types to_non_ad cfg session put wanted media m).chat
          ≡ true
    with_media-same cfg_archive put wanted none m p = p
    with_media-same cfg_archive put wanted (some (mimetype, filename, size)) m p =
        elim (Bool-cases (not (wanted && ltb 0 size))) [
          | inl e ↦ rw e p
          | inr e ↦
              rw e
                (elim (Option-cases (put session m.id)) [ inl k ↦ rw k p | inr (key, k) ↦ rw k p ])
        ]

    IsFiltered-record_outgoing :
        (put : String → String → Option String) (now : ℕ) (own : String) (j : Jid)
        (id kind body : String) (media : Option (String × String × ℕ)) (sh : Shared)
        → IsFiltered sh
        → IsFiltered
            (record_outgoing types to_non_ad cfg session put now own j id kind body media sh)
    unfolding record_outgoing
    IsFiltered-record_outgoing put now own j id kind body media sh h =
        elim (Bool-cases (allow_chat cfg.filter sh.archive session (to_string j))) [
          | inr a ↦ rw a h
          | inl a ↦ rw a (
              AllAllowed-save cfg.filter sh.archive (active cfg.store_messages sh.archive) now _
                sh.messages (with_media-same sh.archive put _ media _ a) h)
        ]

  -- what reaches the store of a session: a message, a receipt, the end of a download, and a message
  -- that was sent
  pub data StoreEvent : Type 0 where
    message_came :
        (MediaPart → Result String String) → ℕ → MessageInfo types → WaMessage → StoreEvent
    receipt_came : (String → Bool) → (String → String) → ReceiptEvent types → StoreEvent
    media_wanted_for :
        (MediaPart → Option ℕ)
        → (String → String → Option String)
        → String
        → MediaPart × MediaMeta
        → StoreEvent
    message_sent :
        (String → String → Option String)
        → ℕ
        → String
        → Jid
        → String
        → String
        → String
        → Option (String × String × ℕ)
        → StoreEvent

  unfoldable pub handle : String → StoreEvent → Shared → Shared
  handle session (message_came download now info msg) sh =
      (handle_message types to_non_ad cfg session download now info msg sh).0
  handle session (receipt_came writes lid_resolve evt) sh =
      handle_receipt types to_non_ad cfg session writes lid_resolve evt sh
  handle session (media_wanted_for download put id media) sh =
      persist_incoming_media types to_non_ad cfg session download put id media sh
  handle session (message_sent put now own j id kind body media) sh =
      record_outgoing types to_non_ad cfg session put now own j id kind body media sh

  -- the events of all sessions in the order in which they reach the store
  unfoldable pub handle_all : List (String × StoreEvent) → Shared → Shared
  handle_all [] sh = sh
  handle_all ((session, event) ∷ events) sh = handle_all events (handle session event sh)

  IsFiltered-handle :
      (session : String) (event : StoreEvent) (sh : Shared)
      → IsFiltered sh
      → IsFiltered (handle session event sh)
  unfolding handle
  IsFiltered-handle session (message_came download now info msg) sh h =
      IsFiltered-handle_message session download now info msg sh h
  IsFiltered-handle session (receipt_came writes lid_resolve evt) sh h =
      IsFiltered-handle_receipt session writes lid_resolve evt sh h
  IsFiltered-handle session (media_wanted_for download put id media) sh h =
      IsFiltered-persist_incoming_media session download put id media sh h
  IsFiltered-handle session (message_sent put now own j id kind body media) sh h =
      IsFiltered-record_outgoing session put now own j id kind body media sh h

  -- If every stored message is of a chat that the filter lets its session store, then so it is after
  -- any messages, receipts, downloads and sends of any sessions, in any order.
  pub IsFiltered-handle_all :
      (events : List (String × StoreEvent)) (sh : Shared)
      → IsFiltered sh
      → IsFiltered (handle_all events sh)
  unfolding handle_all
  IsFiltered-handle_all [] sh h = h
  IsFiltered-handle_all ((session, event) ∷ events) sh h =
      IsFiltered-handle_all events _ (IsFiltered-handle session event sh h)
