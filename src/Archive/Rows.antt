-- ===== src/Archive/Rows.antt =====
-- Which keys the rows of gw_chat_archive give: the lemmas on load, on the upsert and on the delete.
use Prim.Native.Char.{code}
use Prim.Native.String.{[], ◌∷◌}
use text.Mathlib.TextLemmas.{cons-append, nil-append}
use mathlib.Core.List.{List}
use wa_gateway.Base.{
  ℕ, String, Bool, true, false, not, ◌&&◌, ◌||◌, ◌==◌, ◌≡◌, refl, sym, ap, ◌∙◌, arith, All, some,
  eqb, eq_iff, if◌then◌else◌, Assoc, lookup, lookup-insert, Bool-cases, inl, inr,
}
use wa_gateway.Archive.{ArchiveRow, chat_key, row_key, load_set, upsert, remove, is_row}

abbrev pub NoBar : String → Type 0
NoBar [] = Unit
NoBar (c ∷ s) = (eqb (code c) 124 ≡ false) × NoBar s

-- the text before the first bar, and what follows it
unfoldable split_bar : String → String × String
split_bar [] = ("", "")
split_bar (c ∷ s) =
    let (front, back) = split_bar s in if eqb (code c) 124 then ("", s) else (c ∷ front, back)

split_bar-chat_key :
    (session chat : String) → NoBar session → split_bar (chat_key session chat) ≡ (session, chat)
unfolding split_bar
split_bar-chat_key [] chat h = rw (nil-append) refl
split_bar-chat_key (c ∷ s) chat (n, h) = rw (cons-append, n, split_bar-chat_key s chat h) refl

-- is a row's key
unfoldable pub has_key : String → List ArchiveRow → Bool
has_key k List.[] = false
has_key k (List.◌∷◌ r rows) = row_key r == k || has_key k rows

pub lookup-load_set :
    (k : String) (rows : List ArchiveRow) (set : Assoc Bool)
    → lookup k (load_set rows set) ≡ (if has_key k rows then some true else lookup k set)
unfolding load_set has_key
lookup-load_set k List.[] set = refl
lookup-load_set k (List.◌∷◌ r rows) set = rw (lookup-load_set k rows, lookup-insert) (ground arith)

-- a key tells which row it is of
row_key-is_row :
    (session chat : String) (r : ArchiveRow)
    → NoBar session
    → NoBar r.session
    → (row_key r == chat_key session chat) ≡ is_row session chat r
row_key-is_row session chat r n m = elim (Bool-cases (row_key r == chat_key session chat)) [
  | inl e ↦
      let keys = (eq_iff (row_key r) (chat_key session chat)).0 e in
      let parts =
        sym (split_bar-chat_key r.session r.chat m)
        ∙ ap split_bar keys
        ∙ split_bar-chat_key session chat n in
      rw (e) (
        sym (
          rw
            (
              (eq_iff r.session session).1 (ap (λ p. p.0) parts),
              (eq_iff r.chat chat).1 (ap (λ p. p.1) parts),
            )
            refl))
  | inr e ↦ rw (e) (elim (Bool-cases (is_row session chat r)) [
    | inr o ↦ sym o
    | inl o ↦
        let one : r.session ≡ session = (eq_iff r.session session).0 (ground (arith, o)) in
        let two : r.chat ≡ chat = (eq_iff r.chat chat).0 (ground (arith, o)) in
        let keys = ap (λ (x : String). chat_key x r.chat) one ∙ ap (chat_key session) two in
        absurd (ground (arith, e, (eq_iff (row_key r) (chat_key session chat)).1 keys))
  ])
]

pub has_key-upsert :
    (k session chat : String) (now : ℕ) (rows : List ArchiveRow)
    → has_key k (upsert session chat now rows) ≡ (chat_key session chat == k || has_key k rows)
unfolding has_key upsert
has_key-upsert k session chat now List.[] = refl
has_key-upsert k session chat now (List.◌∷◌ r rows) =
    ground
      (arith, has_key-upsert k session chat now rows, eq_iff r.session session, eq_iff r.chat chat)

pub has_key-remove :
    (k session chat : String) (rows : List ArchiveRow)
    → NoBar session
    → All (λ r. NoBar r.session) rows
    → has_key k (remove session chat rows) ≡ (not (chat_key session chat == k) && has_key k rows)
unfolding has_key remove
has_key-remove k session chat List.[] n ns = ground arith
has_key-remove k session chat (List.◌∷◌ r rows) n (m, ns) = ground (
  arith,
  has_key-remove k session chat rows n ns,
  row_key-is_row session chat r n m,
  eq_iff (row_key r) k,
  eq_iff (chat_key session chat) k,
  eq_iff (row_key r) (chat_key session chat),
)
