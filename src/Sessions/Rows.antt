-- ===== src/Sessions/Rows.antt =====
-- The lemmas on the rows that the store of a session (internal/gateway/store.go) writes.
use wa_gateway.Base.{
  ℕ, String, Bool, true, false, not, ◌||◌, ◌≡◌, List, [], ◌∷◌, ◌++◌, pos, ltb_ℤ, eqb, if◌then◌else◌,
  All, is_empty, Bool-cases, inl, inr,
}
use wa_gateway.Messages.{
  StoredMessage, Status, status_rank, save, holds, update_media, update_media_rows, update_status,
  advance_rows, is_message,
}
use wa_gateway.Archive.{ChatArchive}
use wa_gateway.Archive.Filter.{ChatFilter, allow_chat}

-- the chat of every row passes the filter
abbrev pub AllAllowed : ChatFilter → ChatArchive → List StoredMessage → Type 0
AllAllowed filter archive rows = All (λ m. allow_chat filter archive m.session m.chat ≡ true) rows

module _ (filter : ChatFilter) (archive : ChatArchive) where
  AllAllowed-append :
      (rows : List StoredMessage) (m : StoredMessage)
      → allow_chat filter archive m.session m.chat ≡ true
      → AllAllowed filter archive rows
      → AllAllowed filter archive (rows ++ m ∷ [])
  AllAllowed-append [] m p h = (p, tt)
  AllAllowed-append (r ∷ rows) m p (q, h) = (q, AllAllowed-append rows m p h)

  pub AllAllowed-save :
      (is_active : Bool) (now : ℕ) (m : StoredMessage) (rows : List StoredMessage)
      → allow_chat filter archive m.session m.chat ≡ true
      → AllAllowed filter archive rows
      → AllAllowed filter archive (save is_active now m rows)
  unfolding save
  AllAllowed-save is_active now m rows p h =
      elim (Bool-cases (not is_active || holds m.session m.id rows)) [
        | inl e ↦ rw e h
        | inr e ↦ rw e (elim (Bool-cases (eqb m.timestamp 0)) [
          | inl z ↦ rw z (AllAllowed-append rows _ p h)
          | inr z ↦ rw z (AllAllowed-append rows m p h)
        ])
      ]

  abbrev IsAllowed : StoredMessage → Type 0
  IsAllowed m = allow_chat filter archive m.session m.chat ≡ true

  IsAllowed-either :
      (b : Bool) (x y : StoredMessage) → IsAllowed x → IsAllowed y → IsAllowed (if b then x else y)
  IsAllowed-either true x y p q = p
  IsAllowed-either false x y p q = q

  AllAllowed-advance_rows :
      (session : String) (ids : List String) (st : Status) (ts : ℕ) (rows : List StoredMessage)
      → AllAllowed filter archive rows
      → AllAllowed filter archive (advance_rows session ids st ts rows)
  unfolding advance_rows
  AllAllowed-advance_rows session ids st ts [] h = tt
  AllAllowed-advance_rows session ids st ts (m ∷ rows) (p, h) =
      (IsAllowed-either _ _ m p p, AllAllowed-advance_rows session ids st ts rows h)

  pub AllAllowed-update_status :
      (is_active : Bool) (session : String) (ids : List String) (st : Status) (ts : ℕ)
      (rows : List StoredMessage)
      → AllAllowed filter archive rows
      → AllAllowed filter archive (update_status is_active session ids st ts rows)
  unfolding update_status
  AllAllowed-update_status is_active session ids st ts rows h =
      elim (Bool-cases (not is_active || is_empty ids)) [
        | inl e ↦ rw e h
        | inr e ↦ rw e (elim (Bool-cases (ltb_ℤ (status_rank st) (pos 0))) [
          | inl r ↦ rw r h
          | inr r ↦ rw r (AllAllowed-advance_rows session ids st ts rows h)
        ])
      ]

  AllAllowed-update_media_rows :
      (session id key mimetype filename : String) (size : ℕ) (rows : List StoredMessage)
      → AllAllowed filter archive rows
      → AllAllowed filter archive (update_media_rows session id key mimetype filename size rows)
  unfolding update_media_rows
  AllAllowed-update_media_rows session id key mimetype filename size [] h = tt
  AllAllowed-update_media_rows session id key mimetype filename size (m ∷ rows) (p, h) = (
    IsAllowed-either (is_message session id m) _ m p p,
    AllAllowed-update_media_rows session id key mimetype filename size rows h,
  )

  pub AllAllowed-update_media :
      (is_active : Bool) (session id key mimetype filename : String) (size : ℕ)
      (rows : List StoredMessage)
      → AllAllowed filter archive rows
      → AllAllowed filter archive
          (update_media is_active session id key mimetype filename size rows)
  AllAllowed-update_media true session id key mimetype filename size rows h =
      AllAllowed-update_media_rows session id key mimetype filename size rows h
  AllAllowed-update_media false session id key mimetype filename size rows h = h
