-- ===== src/Groups/Listed.antt =====
-- Whom statusList (internal/gateway/group.go) can report as pending: the lemmas on its search.
use Prim.Native.String
use wa_gateway.Base.{
  String, false, ◌==◌, ◌≡◌, subst, arith, List, [], ◌∷◌, Option, none, some, All, lookup,
  Bool-cases, Option-cases, inl, inr, trim,
}
use wa_gateway.Groups.Status.{
  ParticipantStatus, Statuses, is_pending, is_emitted, find_phone, at_key, or_else, find_status,
  list_from,
}
use wa_gateway.Groups.Covered.{Covered}

-- no status is pending
abbrev pub AllDecided : List ParticipantStatus → Type 0
AllDecided statuses = All (λ st. is_pending st.status ≡ false) statuses

-- the same of the map
abbrev pub NonePending : Statuses → Type 0
NonePending statuses = Covered (λ k. false) statuses

abbrev Decides : Option (String × ParticipantStatus) → Type 0
Decides none = Unit
Decides (some found) = is_pending found.1.status ≡ false

Decides-find_phone :
    (p : String) (statuses : Statuses) → NonePending statuses → Decides (find_phone p statuses)
unfolding find_phone
Decides-find_phone p [] h = tt
Decides-find_phone p ((key, st) ∷ statuses) (e, h) = elim (Bool-cases (st.phone == p)) [
  | inl a ↦ rw a (ground (arith, e))
  | inr a ↦ rw a (Decides-find_phone p statuses h)
]

Decides-lookup :
    (key asked : String) (statuses : Statuses)
    → NonePending statuses
    → Decides (at_key key (lookup asked statuses))
unfolding lookup
Decides-lookup key asked [] h = tt
Decides-lookup key asked ((first, st) ∷ statuses) (p, h) = elim (Bool-cases (first == asked)) [
  | inl a ↦ rw a (ground (arith, p))
  | inr a ↦ rw a (Decides-lookup key asked statuses h)
]

Decides-or_else :
    (one other : Option (String × ParticipantStatus))
    → Decides one
    → Decides other
    → Decides (or_else one other)
Decides-or_else none other h k = k
Decides-or_else (some found) other h k = h

Decides-find_status :
    (p : String) (statuses : Statuses) → NonePending statuses → Decides (find_status p statuses)
unfolding find_status
Decides-find_status p statuses h =
    Decides-or_else _ _ (Decides-lookup _ (String.◌++◌ "raw:" p) statuses h)
      (Decides-find_phone p statuses h)

pub AllDecided-list_from :
    (emitted : List String) (statuses : Statuses) (phones : List String)
    → NonePending statuses
    → AllDecided (list_from emitted statuses phones)
unfolding list_from
AllDecided-list_from emitted statuses [] h = tt
AllDecided-list_from emitted statuses (phone ∷ phones) h = elim (Bool-cases (trim phone == "")) [
  | inl e ↦ rw e (AllDecided-list_from emitted statuses phones h)
  | inr e ↦ rw e (elim (Option-cases (find_status (trim phone) statuses)) [
    | inl n ↦ rw n (AllDecided-list_from emitted statuses phones h)
    | inr (found, n) ↦ rw n (elim (Bool-cases (is_emitted found.0 emitted)) [
      | inl m ↦ rw m (AllDecided-list_from emitted statuses phones h)
      | inr m ↦ rw m (
        subst Decides n (Decides-find_status (trim phone) statuses h),
        AllDecided-list_from (found.0 ∷ emitted) statuses phones h,
      )
    ])
  ])
]
