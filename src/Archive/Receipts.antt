-- ===== src/Archive/Receipts.antt =====
-- Receipts of each participant: saveReceipts and receiptsFor of internal/gateway/archive.go, over the
-- rows of gw_message_receipts.
pub mod Highest
use wa_gateway.Base.{
  ℕ, String, Bool, true, false, not, ◌&&◌, ◌||◌, ◌==◌, List, [], ◌∷◌, ◌++◌, ltb, leb, is_empty,
  if◌then◌else◌, pos_part, is_positive, Assoc, lookup, insert, Option, none, some,
}
use wa_gateway.Messages.{Status, status_rank, member}

pub record ReceiptRow : Type 0 where
  pub session : String
  pub message_id : String
  pub chat : String
  pub participant : String
  pub kind : Status
  pub ts : ℕ

-- the primary key of the table
abbrev pub is_receipt : String → String → String → ReceiptRow → Bool
is_receipt session id participant r =
    r.session == session && r.message_id == id && r.participant == participant

-- CASE type WHEN … ELSE 0 END
abbrev pub receipt_rank : Status → ℕ
receipt_rank s = pos_part (status_rank s)

-- INSERT … ON CONFLICT DO UPDATE … WHERE the stored rank is lower
unfoldable pub save_receipt :
    String → String → String → String → Status → ℕ → List ReceiptRow → List ReceiptRow
save_receipt session chat participant id status ts [] =
    record {
      session = session;
      message_id = id;
      chat = chat;
      participant = participant;
      kind = status;
      ts = ts;
    }
    ∷ []
save_receipt session chat participant id status ts (r ∷ rows) =
    let rest = save_receipt session chat participant id status ts rows in
    if not (is_receipt session id participant r)
    then r ∷ rest
    else if ltb (receipt_rank r.kind) (receipt_rank status)
    then record r { kind = status; ts = ts } ∷ rows
    else r ∷ rows

-- the loop over the message ids; `writes` says which statements go through
unfoldable pub save_each :
    (String → Bool)
    → String
    → String
    → String
    → List String
    → Status
    → ℕ
    → List ReceiptRow
    → List ReceiptRow
save_each writes session chat participant [] status ts rows = rows
save_each writes session chat participant (id ∷ ids) status ts rows =
    let one = save_receipt session chat participant id status ts rows in
    save_each writes session chat participant ids status ts (if writes id then one else rows)

unfoldable pub save_receipts :
    (String → Bool)
    → String
    → String
    → String
    → List String
    → Status
    → ℕ
    → List ReceiptRow
    → List ReceiptRow
save_receipts writes session chat participant ids status ts rows =
    if participant == "" || is_empty ids
    then rows
    else if not (is_positive (status_rank status))
    then rows
    else save_each writes session chat participant ids status ts rows

pub record Receipt : Type 0 where
  pub participant : String
  pub kind : Status
  pub timestamp : ℕ

-- ORDER BY ts
unfoldable pub insert_by_ts : ReceiptRow → List ReceiptRow → List ReceiptRow
insert_by_ts r [] = r ∷ []
insert_by_ts r (q ∷ rows) = if leb r.ts q.ts then r ∷ q ∷ rows else q ∷ insert_by_ts r rows

unfoldable pub asked_rows : String → List String → List ReceiptRow → List ReceiptRow
asked_rows session ids [] = []
asked_rows session ids (r ∷ rows) =
    let rest = asked_rows session ids rows in
    if r.session == session && member r.message_id ids then insert_by_ts r rest else rest

abbrev pub or_empty : Option (List Receipt) → List Receipt
or_empty none = []
or_empty (some rs) = rs

-- out[id] = append(out[id], r)
unfoldable pub group_receipts : List ReceiptRow → Assoc (List Receipt) → Assoc (List Receipt)
group_receipts [] out = out
group_receipts (r ∷ rows) out = group_receipts rows (
    insert r.message_id
      (or_empty (lookup r.message_id out)
        ++ record { participant = r.participant; kind = r.kind; timestamp = r.ts } ∷ [])
      out)

-- receiptsFor; `reads` says whether the SELECT goes through
unfoldable pub receipts_for :
    Bool → String → List String → List ReceiptRow → Option (Assoc (List Receipt))
receipts_for reads session ids rows =
    if is_empty ids
    then some []
    else if reads
    then some (group_receipts (asked_rows session ids rows) [])
    else none
