-- ===== src/Retention.antt =====
-- What removes stored messages: active, startRetention, purge, purgeMediaFiles and deleteSession of
-- internal/gateway/store.go, over the three tables and the media objects. The daily timer of
-- startRetention only calls purge again.
use wa_gateway.Base.{
  ℕ, String, Bool, not, ◌&&◌, ◌||◌, ◌==◌, List, [], ◌∷◌, ℤ, is_positive, ltb, if◌then◌else◌,
  filter_if,
}
use wa_gateway.Messages.{StoredMessage, member}
use wa_gateway.Archive.{ChatArchive, any}
use wa_gateway.Archive.Receipts.{ReceiptRow}

-- the tables, the archive with its set in memory, and the keys of the objects in the media store
pub record Tables : Type 0 where
  pub messages : List StoredMessage
  pub receipts : List ReceiptRow
  pub archive : ChatArchive
  pub objects : List String

-- which statements go through, and which objects MediaStore.Delete removes
pub record PurgeAnswers : Type 0 where
  pub selects : Bool
  pub receipts_deleted : Bool
  pub archive_deleted : Bool
  pub messages_deleted : Bool
  pub object_deleted : String → Bool

-- active
abbrev pub active : Bool → ChatArchive → Bool
active enabled archive = enabled || any archive

-- the keys of the SELECT of purgeMediaFiles
unfoldable pub media_keys : (StoredMessage → Bool) → List StoredMessage → List String
media_keys picked [] = []
media_keys picked (m ∷ rows) =
    let rest = media_keys picked rows in
    if picked m && not (m.media_key == "") then m.media_key ∷ rest else rest

-- purgeMediaFiles; there is always a media store
unfoldable pub purge_media_files :
    PurgeAnswers → (StoredMessage → Bool) → List StoredMessage → List String → List String
purge_media_files answers picked rows objects =
    if answers.selects
    then filter_if (λ key. not (member key (media_keys picked rows) && answers.object_deleted key))
        objects
    else objects

unfoldable pub ids_of : (StoredMessage → Bool) → List StoredMessage → List String
ids_of picked [] = []
ids_of picked (m ∷ rows) = let rest = ids_of picked rows in if picked m then m.id ∷ rest else rest

abbrev pub is_old : ℕ → StoredMessage → Bool
is_old cutoff m = ltb m.timestamp cutoff

-- purge; `cutoff` is time.Now().AddDate(0, 0, -retentionDays).Unix()
unfoldable pub purge_old : PurgeAnswers → ℕ → Tables → Tables
purge_old answers cutoff t = record {
  objects = purge_media_files answers (is_old cutoff) t.messages t.objects;
  receipts =
      if answers.receipts_deleted
      then filter_if (λ r. not (member r.message_id (ids_of (is_old cutoff) t.messages))) t.receipts
      else t.receipts;
  archive = t.archive;
  messages =
      if answers.messages_deleted
      then filter_if (λ m. not (is_old cutoff m)) t.messages
      else t.messages;
}

-- the purge with which startRetention begins
unfoldable pub start_retention : PurgeAnswers → ℤ → ℕ → Tables → Tables
start_retention answers retention_days cutoff t =
    if is_positive retention_days then purge_old answers cutoff t else t

-- deleteSession
unfoldable pub delete_session : PurgeAnswers → Bool → String → Tables → Tables
delete_session answers enabled name t = if not (active enabled t.archive) then t else record {
  objects = purge_media_files answers (λ m. m.session == name) t.messages t.objects;
  receipts =
      if answers.receipts_deleted
      then filter_if (λ r. not (r.session == name)) t.receipts
      else t.receipts;
  archive =
      if answers.archive_deleted
      then record t.archive { rows = filter_if (λ r. not (r.session == name)) t.archive.rows }
      else t.archive;
  messages =
      if answers.messages_deleted
      then filter_if (λ m. not (m.session == name)) t.messages
      else t.messages;
}
