-- ===== src/Messages/Lookup.antt =====
-- What statusByIDs (internal/gateway/store.go) answers.
use wa_gateway.Base.{
  String, Bool, true, false, ◌&&◌, ◌||◌, ◌==◌, ◌≡◌, refl, ap, sym, subst, ◌∙◌, arith, List, [], ◌∷◌,
  map, Option, none, some, eq_iff, Assoc, lookup, insert, lookup-insert, lookup-nil, Bool-cases,
  Option-cases, inl, inr,
}
use wa_gateway.Messages.{
  StoredMessage, MessageStatus, is_asked, status_of, collect, answers, status_by_ids,
}

-- whether a row that the request asks for has the id
unfoldable pub is_stored : String → List String → List StoredMessage → String → Bool
is_stored session ids [] id = false
is_stored session ids (m ∷ rows) id =
    (is_asked session ids m && m.id == id) || is_stored session ids rows id

-- The entries carry their keys as ids, and are marked as found.
abbrev AreKeyed : Assoc MessageStatus → Type 0
AreKeyed found =
    (k : String) (a : MessageStatus) → lookup k found ≡ some a → (a.id ≡ k) × (a.found ≡ true)

abbrev is_some : Option MessageStatus → Bool
is_some none = false
is_some (some a) = true

insert-AreKeyed :
    (m : StoredMessage) (found : Assoc MessageStatus)
    → AreKeyed found
    → AreKeyed (insert m.id (status_of m) found)
insert-AreKeyed m found h k a e = elim (Bool-cases (m.id == k)) [
  | inl same ↦
      let read : some (status_of m) ≡ some a = rw (lookup-insert, same) at e in
      let this : status_of m ≡ a = cc in
      (
        ap (λ (x : MessageStatus). x.id) (sym this) ∙ (eq_iff m.id k).0 same,
        ap (λ (x : MessageStatus). x.found) (sym this),
      )
  | inr other ↦ h k a (rw (lookup-insert, other) at e)
]

collect-AreKeyed :
    (session : String) (ids : List String) (rows : List StoredMessage) (found : Assoc MessageStatus)
    → AreKeyed found
    → AreKeyed (collect session ids rows found)
unfolding collect
collect-AreKeyed session ids [] found h = h
collect-AreKeyed session ids (m ∷ rows) found h = elim (Bool-cases (is_asked session ids m)) [
  | inl e ↦ rw e (collect-AreKeyed session ids rows _ (insert-AreKeyed m found h))
  | inr e ↦ rw e (collect-AreKeyed session ids rows found h)
]

is_some-collect :
    (session : String) (ids : List String) (rows : List StoredMessage) (found : Assoc MessageStatus)
    (k : String)
    → is_some (lookup k (collect session ids rows found))
      ≡ (is_stored session ids rows k || is_some (lookup k found))
unfolding collect is_stored
is_some-collect session ids [] found k = refl
is_some-collect session ids (m ∷ rows) found k = elim (Bool-cases (is_asked session ids m)) [
  | inl e ↦
      rw (e, is_some-collect session ids rows (insert m.id (status_of m) found) k, lookup-insert)
        (ground arith)
  | inr e ↦ rw (e, is_some-collect session ids rows found k) (ground arith)
]

answers_lem :
    (found : Assoc MessageStatus)
    → AreKeyed found
    → (ids : List String)
    → (map (λ a. a.id) (answers found ids) ≡ ids)
      × (map (λ a. a.found) (answers found ids) ≡ map (λ k. is_some (lookup k found)) ids)
unfolding answers
answers_lem found h [] = (refl, refl)
answers_lem found h (k ∷ ids) =
    let (same, flags) = answers_lem found h ids in
    elim (Option-cases (lookup k found)) [
      | inl n ↦ rw (n, same, flags) (refl, refl)
      | inr (a, e) ↦ rw (e, same, flags, (h k a e).0, (h k a e).1) (refl, refl)
    ]

nothing_in_empty : (k : String) {a : MessageStatus} → lookup k [] ≡ some a → ¬ Unit {0}
nothing_in_empty k h u = ground (arith, lookup-nil {V = MessageStatus} k, h)

map-is_some :
    (session : String) (all ids : List String) (rows : List StoredMessage)
    → map (λ k. is_some (lookup k (collect session all rows []))) ids
      ≡ map (is_stored session all rows) ids
map-is_some session all [] rows = refl
map-is_some session all (k ∷ ids) rows =
    rw
      (
        map-is_some session all ids rows,
        is_some-collect session all rows [] k,
        lookup-nil {V = MessageStatus} k,
      )
      (ap (◌∷ map (is_stored session all rows) ids) (ground arith))

-- While storage is active, statusByIDs answers every id of the request in its order, and marks as
-- found exactly those ids that an outgoing row of the asked session, or of any session if none is
-- given, has.
pub status_by_ids_lem :
    (session : String) (ids : List String) (rows : List StoredMessage) (out : List MessageStatus)
    → status_by_ids true session ids rows ≡ some out
    → (map (λ a. a.id) out ≡ ids) × (map (λ a. a.found) out ≡ map (is_stored session ids rows) ids)
unfolding status_by_ids
status_by_ids_lem session ids rows out e =
    let found = collect session ids rows [] in
    let keyed = collect-AreKeyed session ids rows [] (λ k a h. absurd (nothing_in_empty k h tt)) in
    let (same, flags) = answers_lem found keyed ids in
    let this : answers found ids ≡ out = cc in
    subst
      (λ (x : List MessageStatus).
        (map (λ a. a.id) x ≡ ids) × (map (λ a. a.found) x ≡ map (is_stored session ids rows) ids))
      this (same, flags ∙ map-is_some session ids ids rows)
