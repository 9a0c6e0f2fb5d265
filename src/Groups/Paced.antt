-- ===== src/Groups/Paced.antt =====
-- addParticipantsPaced and AddParticipants, and the changes of changeParticipants
-- (internal/gateway/group.go).
use wa_gateway.Base.{
  ℕ, zero, suc, String, Bool, not, ◌&&◌, List, [], ◌∷◌, Result, ok, err, ltb, eqb, if◌then◌else◌,
  take, drop, length, ◌>>=◌,
}
use wa_gateway.Phone.Recipient.{JidError}
use wa_gateway.WhatsApp.{JidTypes}
use wa_gateway.Groups.{
  CallError, GroupError, too_many_participants, GroupParticipant, max_group_participants, addressed,
  called,
}
use wa_gateway.Groups.Status.{
  ParticipantStatus, ParticipantState, Statuses, failed, removed, promoted, demoted,
  participant_error_text, status_list,
}
use wa_gateway.Groups.Participants.{
  resolve_participants, apply_each, apply_participant_results, mark_pending,
}

-- ParticipantChangeRemove, -Promote and -Demote
pub data Change : Type 0 where
  remove promote demote : Change

module _ (types : JidTypes) where
  open types use {Jid}

  -- participantAddBatchLen
  abbrev pub participant_add_batch_len : ℕ
  participant_add_batch_len = 5

  -- what UpdateGroupParticipants answers to the n-th batch, and whether the context is done in the
  -- pause before it
  pub record AddAnswers : Type 0 where
    pub update : ℕ → Result CallError (List (GroupParticipant types))
    pub is_cancelled : ℕ → Bool

  -- ErrWhatsAppRateLimited.Error()
  abbrev pub rate_limited_text : String
  rate_limited_text = "rate limited by WhatsApp; stop and try again later"

  -- what the answer to a batch comes to; `more` adds those after the batch
  unfoldable pub batch_answered :
      List Jid
      → List Jid
      → Result CallError (List (GroupParticipant types))
      → (Statuses → List (List Jid) × Statuses)
      → Statuses
      → List (List Jid) × Statuses
  batch_answered jids batch (ok reply) more statuses =
      let later = more (apply_participant_results types reply batch statuses) in
      (batch ∷ later.0, later.1)
  batch_answered jids batch (err e) more statuses =
      let later = more (mark_pending types batch e.message statuses) in
      if e.is_rate_limit
      then (batch ∷ [], mark_pending types jids rate_limited_text statuses)
      else (batch ∷ later.0, later.1)

  module _ (answers : AddAnswers) where
    -- The loop of addParticipantsPaced from the n-th batch on: the batches that are sent, and the
    -- statuses. There are at most as many batches as there are addresses.
    unfoldable pub add_batches : ℕ → ℕ → List Jid → Statuses → List (List Jid) × Statuses
    add_batches zero n jids statuses = ([], statuses)
    add_batches (suc fuel) n [] statuses = ([], statuses)
    add_batches (suc fuel) n (j ∷ jids) statuses =
        let batch = take participant_add_batch_len (j ∷ jids) in
        let more = add_batches fuel (suc n) (drop participant_add_batch_len (j ∷ jids)) in
        if not (eqb n 0) && answers.is_cancelled n
        then ([], mark_pending types batch "cancelled" statuses)
        else batch_answered (j ∷ jids) batch (answers.update n) more statuses

    abbrev pub add_participants_paced : List Jid → Statuses → List (List Jid) × Statuses
    add_participants_paced jids = add_batches (length jids) 0 jids

    -- AddParticipants
    unfoldable pub add_participants :
        (JidError → String)
        → String
        → Bool
        → String
        → List String
        → Result GroupError (List ParticipantStatus)
    add_participants describe country logged_in group phones =
        addressed types logged_in group >>= λ gjid.
        if ltb max_group_participants (length phones)
        then err too_many_participants
        else resolve_participants types describe country phones >>= λ r.
            let (batches, statuses) = add_participants_paced r.0 r.1 in
            ok (status_list statuses phones)

  -- the loop over the reply in changeParticipants and in decideJoinRequests
  abbrev pub apply_change :
      ParticipantState → GroupParticipant types → ParticipantStatus → ParticipantStatus
  apply_change ok_status p st =
      if eqb p.error 0
      then record st { status = ok_status }
      else record st { status = failed; code = p.error; error = participant_error_text p.error }

  -- changeParticipants; `update` is the answer of UpdateGroupParticipants
  unfoldable pub change_participants :
      (JidError → String)
      → String
      → Bool
      → (Jid → List Jid → Change → Result CallError (List (GroupParticipant types)))
      → String
      → List String
      → Change
      → ParticipantState
      → Result GroupError (List ParticipantStatus)
  change_participants describe country logged_in update group phones change ok_status =
      addressed types logged_in group >>= λ gjid.
      resolve_participants types describe country phones >>= λ r.
      called (update gjid r.0 change) >>= λ reply.
      ok (status_list (apply_each types (apply_change ok_status) reply r.1) phones)

  module _ (describe : JidError → String) (country : String) (logged_in : Bool)
      (update : Jid → List Jid → Change → Result CallError (List (GroupParticipant types)))
      (group : String) (phones : List String) where
    unfoldable pub remove_participants : Result GroupError (List ParticipantStatus)
    remove_participants =
        change_participants describe country logged_in update group phones remove removed

    unfoldable pub promote_participants : Result GroupError (List ParticipantStatus)
    promote_participants =
        change_participants describe country logged_in update group phones promote promoted

    unfoldable pub demote_participants : Result GroupError (List ParticipantStatus)
    demote_participants =
        change_participants describe country logged_in update group phones demote demoted
