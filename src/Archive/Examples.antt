-- ===== src/Archive/Examples.antt =====
-- The theorems on the archive, the filter and the receipts at concrete inputs.
use wa_gateway.Base.{◌≡◌, refl, true, false, [], ◌∷◌, trim, lookup, insert, byte_len}
use wa_gateway.Messages.{delivered, read}
use wa_gateway.Phone.{normalize_phone, digits_only}
use wa_gateway.Archive.{ArchiveRow, ChatArchive, load_set, load, enabled, set_enabled}
use wa_gateway.Archive.Loaded.{IsSound, set_enabled-IsSound, enabled-set_enabled}
use wa_gateway.Archive.Filter.{new_filter, allow_chat, before_at}
use wa_gateway.Archive.Allowed.{Lists, allow_chat_listed, allow_chat_excluded}
use wa_gateway.Archive.Receipts.{ReceiptRow, save_receipts}
use wa_gateway.Archive.Receipts.Highest.{kept_rank, kept_rank-save_receipts}

abbrev class_group : ArchiveRow
class_group = record { session = "default"; chat = "12036@g.us"; updated_at = 7 }

abbrev one_chat : ChatArchive
one_chat = record { rows = class_group ∷ []; set = ("default|12036@g.us", true) ∷ [] }

one_chat-IsSound : IsSound one_chat
unfolding load_set insert
one_chat-IsSound = record {
  loaded = λ k. refl;
  named = ((refl, (refl, (refl, (refl, (refl, (refl, (refl, tt))))))), tt);
}

set_enabled-IsSound_example : IsSound (set_enabled true "" "12037@g.us" true 9 one_chat).0
set_enabled-IsSound_example =
    set_enabled-IsSound true "" "12037@g.us" true 9 one_chat tt one_chat-IsSound

enabled-set_enabled_example :
    (enabled "" "12037@g.us" (set_enabled true "" " 12037@g.us" true 9 one_chat).0 ≡ true)
    × (enabled "" "12037@g.us" (load true (set_enabled true "" " 12037@g.us" true 9 one_chat).0)
        ≡ true)
unfolding set_enabled trim
enabled-set_enabled_example =
    enabled-set_enabled true "" " 12037@g.us" true 9 one_chat tt one_chat-IsSound refl

numbers-Lists : Lists "62" "62812345678" ("g1@g.us" ∷ "0812-345-678" ∷ [])
unfolding trim before_at normalize_phone digits_only byte_len
numbers-Lists = record {
  front = "g1@g.us" ∷ [];
  entry = "0812-345-678";
  back = [];
  parts = refl;
  nonempty = refl;
  plain = refl;
  number = refl;
}

allow_chat_listed_example :
    allow_chat
      (new_filter ("g1@g.us" ∷ "0812-345-678" ∷ []) [] "62" true)
      one_chat
      "default"
      "62812345678@s.whatsapp.net"
    ≡ true
allow_chat_listed_example =
    allow_chat_listed "62" "62812345678" "s.whatsapp.net" "default" (refl, (refl, tt)) one_chat
      ("g1@g.us" ∷ "0812-345-678" ∷ []) [] numbers-Lists

allow_chat_excluded_example :
    allow_chat
      (new_filter [] ("g1@g.us" ∷ "0812-345-678" ∷ []) "62" true)
      one_chat
      "default"
      "62812345678@s.whatsapp.net"
    ≡ false
unfolding enabled lookup
allow_chat_excluded_example =
    allow_chat_excluded "62" "62812345678" "s.whatsapp.net" "default" (refl, (refl, tt)) one_chat []
      ("g1@g.us" ∷ "0812-345-678" ∷ []) numbers-Lists refl refl

abbrev read_receipt : ReceiptRow
read_receipt = record {
  session = "default";
  message_id = "A1";
  chat = "12036@g.us";
  participant = "62812345";
  kind = read;
  ts = 20;
}

kept_rank-save_receipts_example :
    kept_rank "default" "A1" "62812345" (
      save_receipts
        (λ _. true)
        "default"
        "12036@g.us"
        "62812345"
        ("A1" ∷ "A2" ∷ [])
        delivered
        30
        (read_receipt ∷ []))
    ≡ 2
unfolding kept_rank
kept_rank-save_receipts_example =
    kept_rank-save_receipts "default" "12036@g.us" "62812345" delivered 30 "A1" ("A1" ∷ "A2" ∷ [])
      (read_receipt ∷ []) refl
