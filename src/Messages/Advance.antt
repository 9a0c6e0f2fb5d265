-- ===== src/Messages/Advance.antt =====
-- The delivery status of messages under sequences of updateStatus (internal/gateway/store.go).
use wa_gateway.Base.{
  ℕ, ◌+◌, ◌-◌, ◌≡◌, ap, sym, ◌∙◌, refl, String, Bool, true, false, ◌&&◌, ◌==◌, List, [], ◌∷◌, arith,
  ltb, Bool-cases, inl, inr, if◌then◌else◌, pos_part, neg_part, is_empty, ltb_ℤ, pos,
}
use wa_gateway.Messages.{
  Status, StoredMessage, unset, sent, delivered, read, played, status_rank, advance, advance_rows,
  update_status, member,
}

-- A receipt as updateStatus takes it.
pub record Event : Type 0 where
  pub session : String
  pub ids : List String
  pub status : Status
  pub ts : ℕ

pub apply : Event → StoredMessage → StoredMessage
apply e m = advance e.session e.ids e.status e.ts m

unfoldable pub apply_all : List Event → StoredMessage → StoredMessage
unfolding apply
apply_all [] m = m
apply_all (e ∷ es) m = apply_all es (apply e m)

-- the receipts of a sequence, each by updateStatus
unfoldable pub update_statuses : List Event → List StoredMessage → List StoredMessage
update_statuses [] rows = rows
update_statuses (e ∷ es) rows =
    update_statuses es (update_status true e.session e.ids e.status e.ts rows)

-- the rank, counted from 0 for a status that has none
abbrev pub level : Status → ℕ
level s = pos_part (status_rank s) + 1 - neg_part (status_rank s)

-- the level that an event offers to a message
abbrev pub offer : StoredMessage → Event → ℕ
offer m e = if m.session == e.session && m.from_me && member m.id e.ids then level e.status else 0

abbrev pub higher : ℕ → ℕ → ℕ
higher a b = if ltb a b then b else a

-- the highest of a level and those that are offered to a message
unfoldable pub best_from : ℕ → List Event → StoredMessage → ℕ
best_from l [] m = l
best_from l (e ∷ es) m = higher (offer m e) (best_from l es m)

abbrev pub best : List Event → StoredMessage → ℕ
best es m = best_from (level m.status) es m

unfoldable pub levels : List StoredMessage → List ℕ
levels [] = []
levels (m ∷ rows) = level m.status ∷ levels rows

unfoldable pub bests : List Event → List StoredMessage → List ℕ
bests es [] = []
bests es (m ∷ rows) = best es m ∷ bests es rows

ltb_ℤ-level : (a b : Status) → ltb_ℤ (status_rank a) (status_rank b) ≡ ltb (level a) (level b)
ltb_ℤ-level unset b = ground arith
ltb_ℤ-level sent b = ground arith
ltb_ℤ-level delivered b = ground arith
ltb_ℤ-level read b = ground arith
ltb_ℤ-level played b = ground arith
ltb_ℤ-level Status.read_self b = ground arith
ltb_ℤ-level Status.played_self b = ground arith

best_from-record :
    (l : ℕ) (es : List Event) (m : StoredMessage) (s : Status) (t : ℕ)
    → best_from l es (record m { status = s; status_at = t }) ≡ best_from l es m
unfolding best_from
best_from-record l [] m s t = refl
best_from-record l (e ∷ es) m s t = ap (higher (offer m e)) (best_from-record l es m s t)

best_from-higher :
    (a b : ℕ) (es : List Event) (m : StoredMessage)
    → best_from (higher a b) es m ≡ higher a (best_from b es m)
unfolding best_from
best_from-higher a b [] m = refl
best_from-higher a b (e ∷ es) m = ground (arith, best_from-higher a b es m)

-- whether an event changes a message
abbrev moves : Event → StoredMessage → Bool
moves e m =
    m.session == e.session
    && m.from_me
    && member m.id e.ids
    && ltb_ℤ (status_rank m.status) (status_rank e.status)

best_from-apply :
    (l : ℕ) (e : Event) (es : List Event) (m : StoredMessage)
    → best_from l es (apply e m) ≡ best_from l es m
unfolding apply
best_from-apply l e es m = elim (Bool-cases (moves e m)) [
  | inl h ↦ rw (h) (best_from-record l es m e.status e.ts)
  | inr h ↦ rw (h) refl
]

level-apply :
    (e : Event) (m : StoredMessage) → level (apply e m).status ≡ higher (offer m e) (level m.status)
unfolding apply
level-apply e m = elim (Bool-cases (m.session == e.session)) [
  | inr h ↦ rw (h) (ground arith)
  | inl h ↦ elim (Bool-cases m.from_me) [
    | inr h2 ↦ rw (h, h2) (ground arith)
    | inl h2 ↦ elim (Bool-cases (member m.id e.ids)) [
      | inr h3 ↦ rw (h, h2, h3) (ground arith)
      | inl h3 ↦ elim (Bool-cases (ltb_ℤ (status_rank m.status) (status_rank e.status))) [
        | inl h4 ↦
            let q = ltb_ℤ-level m.status e.status in rw (h, h2, h3, h4) (ground (arith, q, h4))
        | inr h4 ↦
            let q = ltb_ℤ-level m.status e.status in rw (h, h2, h3, h4) (ground (arith, q, h4))
      ]
    ]
  ]
]

best-apply :
    (e : Event) (es : List Event) (m : StoredMessage) → best es (apply e m) ≡ best (e ∷ es) m
unfolding best_from
best-apply e es m =
    best_from-apply (level (apply e m).status) e es m
    ∙ ap (λ l. best_from l es m) (level-apply e m)
    ∙ best_from-higher (offer m e) (level m.status) es m

unmoved : (e : Event) (m : StoredMessage) → moves e m ≡ false → apply e m ≡ m
unfolding apply
unmoved e m h = rw (h) refl

member_empty : (x : String) (ids : List String) → is_empty ids ≡ true → member x ids ≡ false
member_empty x [] h = refl
member_empty x (y ∷ ids) h = absurd (ground arith)

advance-none : (e : Event) (m : StoredMessage) → is_empty e.ids ≡ true → apply e m ≡ m
advance-none e m h = unmoved e m (rw (member_empty m.id e.ids h) (ground arith))

apply_unranked :
    (e : Event) (m : StoredMessage) → ltb_ℤ (status_rank e.status) (pos 0) ≡ true → apply e m ≡ m
apply_unranked e m h =
    let q = ltb_ℤ-level m.status e.status in
    let z : level e.status ≡ 0 = ground (arith, h) in
    let n : ltb (level m.status) (level e.status) ≡ false = rw (z) (ground arith) in
    unmoved e m (rw (q ∙ n) (ground arith))

unfoldable apply_rows : Event → List StoredMessage → List StoredMessage
apply_rows e [] = []
apply_rows e (m ∷ rows) = apply e m ∷ apply_rows e rows

apply_rows_idle :
    (e : Event)
    → ((m : StoredMessage) → apply e m ≡ m)
    → (rows : List StoredMessage) → apply_rows e rows ≡ rows
unfolding apply_rows
apply_rows_idle e idle [] = refl
apply_rows_idle e idle (m ∷ rows) = rw (idle m, apply_rows_idle e idle rows) refl

advance_rows-apply_rows :
    (e : Event) (rows : List StoredMessage)
    → advance_rows e.session e.ids e.status e.ts rows ≡ apply_rows e rows
unfolding advance_rows apply_rows apply
advance_rows-apply_rows e [] = refl
advance_rows-apply_rows e (m ∷ rows) = ap (apply e m ∷◌) (advance_rows-apply_rows e rows)

update_status-apply_rows :
    (e : Event) (rows : List StoredMessage)
    → update_status true e.session e.ids e.status e.ts rows ≡ apply_rows e rows
unfolding update_status
update_status-apply_rows e rows = elim (Bool-cases (is_empty e.ids)) [
  | inl h ↦ rw (h) (sym (apply_rows_idle e (λ m. advance-none e m h) rows))
  | inr h ↦ elim (Bool-cases (ltb_ℤ (status_rank e.status) (pos 0))) [
    | inl h2 ↦ rw (h, h2) (sym (apply_rows_idle e (λ m. apply_unranked e m h2) rows))
    | inr h2 ↦ rw (h, h2) (advance_rows-apply_rows e rows)
  ]
]

levels-bests : (rows : List StoredMessage) → levels rows ≡ bests [] rows
unfolding levels bests best_from
levels-bests [] = refl
levels-bests (m ∷ rows) = ap (level m.status ∷◌) (levels-bests rows)

bests-apply_rows :
    (e : Event) (es : List Event) (rows : List StoredMessage)
    → bests es (apply_rows e rows) ≡ bests (e ∷ es) rows
unfolding bests apply_rows
bests-apply_rows e es [] = refl
bests-apply_rows e es (m ∷ rows) = rw (best-apply e es m, bests-apply_rows e es rows) refl

-- After any sequence of receipts, each taken by updateStatus while storage is active, every
-- message stands at the highest level among its own and those of the receipts that name it,
-- whatever their order; the level counts sent, delivered, read and played from 1, and any other
-- status as 0.
pub levels-update_statuses :
    (es : List Event) (rows : List StoredMessage) → levels (update_statuses es rows) ≡ bests es rows
unfolding update_statuses
levels-update_statuses [] rows = levels-bests rows
levels-update_statuses (e ∷ es) rows =
    levels-update_statuses es (update_status true e.session e.ids e.status e.ts rows)
    ∙ ap (bests es) (update_status-apply_rows e rows)
    ∙ bests-apply_rows e es rows
