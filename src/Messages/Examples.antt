-- ===== src/Messages/Examples.antt =====
-- The theorems on stored messages at a concrete table.
use wa_gateway.Base.{map, lookup, insert, refl, ◌≡◌, true, false, List, [], ◌∷◌}
use wa_gateway.Messages.Lookup.{is_stored, status_by_ids_lem}
use wa_gateway.Messages.{
  MessageStatus, unset, status_by_ids, collect, answers, StoredMessage, sent, delivered, read,
}
use wa_gateway.Messages.Advance.{
  Event, levels, bests, best_from, update_statuses, levels-update_statuses,
}

abbrev outgoing : StoredMessage
outgoing = record {
  session = "default";
  id = "A1";
  chat = "62812345@s.whatsapp.net";
  sender = "";
  push_name = "";
  direction = "out";
  from_me = true;
  is_group = false;
  kind = "text";
  body = "hai";
  mimetype = "";
  filename = "";
  file_length = 0;
  media_key = "";
  timestamp = 100;
  status = sent;
  status_at = 100;
}

abbrev late_receipts : List Event
late_receipts =
    record { session = "default"; ids = "A1" ∷ []; status = read; ts = 120 }
    ∷ record { session = "default"; ids = "A0" ∷ "A1" ∷ []; status = delivered; ts = 110 }
    ∷ []

levels-update_statuses_example : levels (update_statuses late_receipts (outgoing ∷ [])) ≡ 3 ∷ []
unfolding bests best_from
levels-update_statuses_example = levels-update_statuses late_receipts (outgoing ∷ [])

abbrev asked_statuses : List MessageStatus
asked_statuses =
    record { id = "A0"; session = ""; chat = ""; status = unset; status_at = 0; found = false }
    ∷ record {
      id = "A1";
      session = "default";
      chat = "62812345@s.whatsapp.net";
      status = sent;
      status_at = 100;
      found = true;
    }
    ∷ []

status_by_ids_lem_example :
    (map (λ (a : MessageStatus). a.id) asked_statuses ≡ "A0" ∷ "A1" ∷ [])
    × (map (λ (a : MessageStatus). a.found) asked_statuses ≡ false ∷ true ∷ [])
unfolding status_by_ids collect answers is_stored lookup insert
status_by_ids_lem_example =
    status_by_ids_lem "" ("A0" ∷ "A1" ∷ []) (outgoing ∷ []) asked_statuses refl
