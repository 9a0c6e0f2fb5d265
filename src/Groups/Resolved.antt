-- ===== src/Groups/Resolved.antt =====
-- Who is pending after resolving a request and after its batches (internal/gateway/group.go).
use wa_gateway.Base.{
  ℕ, zero, suc, ◌≤◌, String, Bool, false, not, ◌||◌, ◌&&◌, ◌==◌, ◌≡◌, refl, arith, List, [], ◌∷◌,
  eq_refl, Bool-cases, inl, inr, take, drop, length, Result, ok, err, trim, eqb, is_empty,
}
use wa_gateway.Base.Paging.{length-drop}
use wa_gateway.Phone.Recipient.{JidError, parse_jid}
use wa_gateway.WhatsApp.{JidTypes}
use wa_gateway.Groups.{GroupParticipant, GroupError, CallError}
use wa_gateway.Groups.Status.{Statuses, is_emitted}
use wa_gateway.Groups.Participants.{Resolved, take_in, resolve_one, resolve_from, resolve}
use wa_gateway.Groups.Paced.{AddAnswers, add_batches, batch_answered, participant_add_batch_len}
use wa_gateway.Groups.Covered.{
  Covered, Covered-weaken, Covered-insert, Covered-settle, Covered-apply_participant_results, among,
  among-append, among-take-drop,
}
use wa_gateway.Groups.Listed.{NonePending}

module _ (types : JidTypes) where
  open types use {Jid, user}

  -- who is pending has an address in the list
  abbrev pub IsResolved : List Jid → Statuses → Type 0
  IsResolved jids statuses = Covered (among types jids) statuses

  IsResolved-take_in :
      (p : String) (j : Jid) (r : Resolved types)
      → IsResolved r.jids r.statuses
      → IsResolved (take_in types p j r).jids (take_in types p j r).statuses
  IsResolved-take_in p j r h = elim (Bool-cases (is_emitted (user j) r.seen)) [
    | inl e ↦ rw e h
    | inr e ↦ rw e (
        Covered-insert _ (user j) _ r.statuses
          (ground (arith, among-append types r.jids (j ∷ []) (user j), eq_refl (user j)))
          (Covered-weaken r.statuses
            (λ k m. ground (arith, m, among-append types r.jids (j ∷ []) k)) h))
  ]

  module _ (describe : JidError → String) (is_allowed : Jid → Bool) where
    IsResolved-resolve_one :
        (p : String) (o : Result JidError Jid) (r : Resolved types)
        → IsResolved r.jids r.statuses
        → IsResolved
            (resolve_one types describe is_allowed p o r).jids
            (resolve_one types describe is_allowed p o r).statuses
    IsResolved-resolve_one p (err e) r h = Covered-insert _ _ _ r.statuses refl h
    IsResolved-resolve_one p (ok j) r h = elim (Bool-cases (is_allowed j)) [
      | inl e ↦ rw e (IsResolved-take_in p j r h)
      | inr e ↦ rw e (Covered-insert _ _ _ r.statuses refl h)
    ]

    IsResolved-resolve_from :
        (country : String) (phones : List String) (r : Resolved types)
        → IsResolved r.jids r.statuses
        → IsResolved
            (resolve_from types describe is_allowed country phones r).jids
            (resolve_from types describe is_allowed country phones r).statuses
    unfolding resolve_from
    IsResolved-resolve_from country [] r h = h
    IsResolved-resolve_from country (phone ∷ phones) r h =
        IsResolved-resolve_from country phones _ (elim (Bool-cases (trim phone == "")) [
          | inl e ↦ rw e h
          | inr e ↦
              rw e (IsResolved-resolve_one (trim phone) (parse_jid types (trim phone) country) r h)
        ])

    abbrev pub AreResolved : Result GroupError (List Jid × Statuses) → Type 0
    AreResolved (err e) = Unit
    AreResolved (ok r) = IsResolved r.0 r.1

    pub AreResolved-resolve :
        (country : String) (phones : List String)
        → AreResolved (resolve types describe is_allowed country phones)
    unfolding resolve
    AreResolved-resolve country phones =
        let start : Resolved types = record { jids = []; statuses = []; seen = [] } in
        let r = resolve_from types describe is_allowed country phones start in
        elim (Bool-cases (is_empty r.jids && is_empty r.statuses)) [
          | inl e ↦ rw e tt
          | inr e ↦ rw e (IsResolved-resolve_from country phones start tt)
        ]

  NonePending-batch_answered :
      (jids : List Jid) (answer : Result CallError (List (GroupParticipant types)))
      (more : Statuses → List (List Jid) × Statuses) (statuses : Statuses)
      → ((later : Statuses)
          → IsResolved (drop (participant_add_batch_len types) jids) later
          → NonePending (more later).1)
      → IsResolved jids statuses
      → NonePending
          (batch_answered types jids
            (take (participant_add_batch_len types) jids)
            answer
            more
            statuses).1
  unfolding batch_answered
  NonePending-batch_answered jids answer more statuses m h = go answer
    where
      halves :
          Covered
            (λ k.
              among types (take (participant_add_batch_len types) jids) k
              || among types (drop (participant_add_batch_len types) jids) k)
            statuses
      halves =
          Covered-weaken statuses
            (λ k e.
              ground (arith, e, among-take-drop types (participant_add_batch_len types) jids k))
            h

      go :
          (a : Result CallError (List (GroupParticipant types)))
          → NonePending
              (batch_answered types jids
                (take (participant_add_batch_len types) jids)
                a
                more
                statuses).1
      go (ok reply) = m _ (Covered-apply_participant_results types _ reply _ statuses halves)
      go (err e) = elim (Bool-cases e.is_rate_limit) [
        | inl r ↦ rw r (
            Covered-settle types _ _ jids statuses (λ st. refl)
              (Covered-weaken statuses (λ k q. ground (arith, q)) h))
        | inr r ↦ rw r (m _ (Covered-settle types _ _ _ statuses (λ st. refl) halves))
      ]

  module _ (answers : AddAnswers types) (alive : (i : ℕ) → answers.is_cancelled i ≡ false) where
    -- every batch settles its participants, unless the context is done
    pub NonePending-add_batches :
        (fuel n : ℕ) (jids : List Jid) (statuses : Statuses)
        → length jids ≤ fuel
        → IsResolved jids statuses
        → NonePending (add_batches types answers fuel n jids statuses).1
    unfolding add_batches
    NonePending-add_batches zero n [] statuses f h = h
    NonePending-add_batches zero n (j ∷ jids) statuses f h = absurd (omega arith)
    NonePending-add_batches (suc fuel) n [] statuses f h = h
    NonePending-add_batches (suc fuel) n (j ∷ jids) statuses f h =
        let goes : (not (eqb n 0) && answers.is_cancelled n) ≡ false = ground (arith, alive n) in
        rw goes (
          NonePending-batch_answered (j ∷ jids) (answers.update n) _ statuses
            (λ later r.
              NonePending-add_batches fuel (suc n) _ later
                (omega (arith, length-drop (participant_add_batch_len types) (j ∷ jids))) r)
            h)
