-- ===== src/Archive/Receipts/Highest.antt =====
-- Which receipt saveReceipts (internal/gateway/archive.go) keeps for a participant.
use wa_gateway.Base.{
  ℕ, String, true, false, ◌==◌, ◌≡◌, refl, arith, List, [], ◌∷◌, ltb, if◌then◌else◌, eq_iff,
  eq_refl, subst, Bool-cases, inl, inr, is_positive,
}
use wa_gateway.Messages.{Status, member, status_rank}
use wa_gateway.Archive.Receipts.{
  ReceiptRow, is_receipt, receipt_rank, save_receipt, save_each, save_receipts,
}

-- the rank of the receipt that is kept, 0 for none
unfoldable pub kept_rank : String → String → String → List ReceiptRow → ℕ
kept_rank session id participant [] = 0
kept_rank session id participant (r ∷ rows) =
    if is_receipt session id participant r
    then receipt_rank r.kind
    else kept_rank session id participant rows

abbrev pub higher_rank : ℕ → ℕ → ℕ
higher_rank a b = if ltb a b then b else a

is_receipt_other :
    (session id i participant : String) (r : ReceiptRow)
    → (id == i) ≡ false
    → is_receipt session id participant r ≡ true
    → is_receipt session i participant r ≡ false
is_receipt_other session id i participant r n e =
    ground (arith, eq_iff r.message_id id, eq_iff r.message_id i, eq_iff id i)

is_receipt_self :
    (session id chat participant : String) (status : Status) (ts : ℕ)
    → is_receipt session id participant (record {
      session = session;
      message_id = id;
      chat = chat;
      participant = participant;
      kind = status;
      ts = ts;
    })
      ≡ true
is_receipt_self session id chat participant status ts =
    rw (eq_refl session, eq_refl id, eq_refl participant) refl

module _ (session chat participant : String) (status : Status) (ts : ℕ) where
  kept_rank-save_receipt_self :
      (id : String) (rows : List ReceiptRow)
      → kept_rank session id participant (save_receipt session chat participant id status ts rows)
        ≡ higher_rank (kept_rank session id participant rows) (receipt_rank status)
  unfolding kept_rank save_receipt
  kept_rank-save_receipt_self id [] =
      rw (is_receipt_self session id chat participant status ts) (ground arith)
  kept_rank-save_receipt_self id (r ∷ rows) =
      elim (Bool-cases (is_receipt session id participant r)) [
        | inr e ↦ rw (e) (rw e (kept_rank-save_receipt_self id rows))
        | inl e ↦ elim (Bool-cases (ltb (receipt_rank r.kind) (receipt_rank status))) [
          | inl h ↦ rw (e, h) (rw e refl)
          | inr h ↦ rw (e, h) (rw e refl)
        ]
      ]

  kept_rank-save_receipt_other :
      (id i : String) (rows : List ReceiptRow)
      → (id == i) ≡ false
      → kept_rank session i participant (save_receipt session chat participant id status ts rows)
        ≡ kept_rank session i participant rows
  unfolding kept_rank save_receipt
  kept_rank-save_receipt_other id i [] n = rw (eq_refl session, n) refl
  kept_rank-save_receipt_other id i (r ∷ rows) n =
      elim (Bool-cases (is_receipt session id participant r)) [
        | inr e ↦ rw (e, kept_rank-save_receipt_other id i rows n) refl
        | inl e ↦
            let off = is_receipt_other session id i participant r n e in
            elim (Bool-cases (ltb (receipt_rank r.kind) (receipt_rank status))) [
              | inl h ↦ rw (e, h) (rw off refl)
              | inr h ↦ rw (e, h) (rw off refl)
            ]
      ]

module _ (session chat participant : String) (status : Status) (ts : ℕ) (i : String) where
  kept_rank-save_receipt :
      (id : String) (rows : List ReceiptRow)
      → kept_rank session i participant (save_receipt session chat participant id status ts rows)
        ≡ (if id == i
            then higher_rank (kept_rank session i participant rows) (receipt_rank status)
            else kept_rank session i participant rows)
  kept_rank-save_receipt id rows = elim (Bool-cases (id == i)) [
    | inr n ↦ rw n (kept_rank-save_receipt_other session chat participant status ts id i rows n)
    | inl e ↦ rw e (
        subst
          (λ (x : String).
            kept_rank session x participant
              (save_receipt session chat participant id status ts rows)
            ≡ higher_rank (kept_rank session x participant rows) (receipt_rank status))
          ((eq_iff id i).0 e)
          (kept_rank-save_receipt_self session chat participant status ts id rows))
  ]

  kept_rank-save_each :
      (ids : List String) (rows : List ReceiptRow)
      → kept_rank session i participant
          (save_each (λ _. true) session chat participant ids status ts rows)
        ≡ (if member i ids
            then higher_rank (kept_rank session i participant rows) (receipt_rank status)
            else kept_rank session i participant rows)
  unfolding save_each
  kept_rank-save_each [] rows = refl
  kept_rank-save_each (id ∷ ids) rows = ground (
    arith,
    kept_rank-save_each ids (save_receipt session chat participant id status ts rows),
    kept_rank-save_receipt id rows,
    eq_iff id i,
    eq_iff i id,
  )

  -- If every statement goes through and the participant is named, saveReceipts raises the rank
  -- that is kept for each message that the receipt names to the receipt's, if that is higher, and
  -- leaves the rank of every other message.
  pub kept_rank-save_receipts :
      (ids : List String) (rows : List ReceiptRow)
      → (participant == "") ≡ false
      → kept_rank session i participant
          (save_receipts (λ _. true) session chat participant ids status ts rows)
        ≡ (if member i ids
            then higher_rank (kept_rank session i participant rows) (receipt_rank status)
            else kept_rank session i participant rows)
  unfolding save_receipts
  kept_rank-save_receipts [] rows named = rw (named) refl
  kept_rank-save_receipts (id ∷ ids) rows named =
      elim (Bool-cases (is_positive (status_rank status))) [
        | inl p ↦ rw (named, p) (kept_rank-save_each (id ∷ ids) rows)
        | inr p ↦ rw (named, p) (ground (arith, p))
      ]
