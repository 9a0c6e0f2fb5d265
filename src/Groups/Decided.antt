-- ===== src/Groups/Decided.antt =====
-- What CreateGroup and AddParticipants (internal/gateway/group.go) report of each participant.
use wa_gateway.Base.{
  ℕ, String, false, ◌==◌, ◌≡◌, subst, arith, List, [], ◌∷◌, Bool-cases, inl, inr, length, Result,
  ok, err, trim, ltb,
}
use wa_gateway.Phone.Recipient.{JidError}
use wa_gateway.WhatsApp.{JidTypes}
use wa_gateway.Groups.{GroupError, CallError, max_group_name_len, max_group_participants}
use wa_gateway.Groups.Status.{Statuses, status_list}
use wa_gateway.Groups.Participants.{is_user}
use wa_gateway.Groups.Paced.{AddAnswers, participant_add_batch_len}
use wa_gateway.Groups.Cooldown.{GroupLimits, GroupClock, check_group_cooldown}
use wa_gateway.Groups.Runes.{rune_len}
use wa_gateway.Groups.Create.{
  CreateGroupInput, CreateGroupResult, CreatedGroup, CreateAnswers, rest_added, created,
  create_group, with_participants, allowed_or_refused, request_of,
}
use wa_gateway.Groups.Covered.{Covered-weaken, Covered-apply_participant_results, among-take-drop}
use wa_gateway.Groups.Listed.{AllDecided, NonePending, AllDecided-list_from}
use wa_gateway.Groups.Resolved.{
  IsResolved, AreResolved, AreResolved-resolve, NonePending-add_batches,
}

module _ (types : JidTypes) where
  open types use {Jid}

  AllDecided-status_list :
      (statuses : Statuses) (phones : List String)
      → NonePending statuses
      → AllDecided (status_list statuses phones)
  unfolding status_list
  AllDecided-status_list statuses phones h = AllDecided-list_from [] statuses phones h

  NonePending-rest_added :
      (add : AddAnswers types) (jids : List Jid) (statuses : Statuses)
      → ((i : ℕ) → add.is_cancelled i ≡ false)
      → IsResolved types jids statuses
      → NonePending (rest_added types add jids statuses)
  NonePending-rest_added add [] statuses alive h = h
  NonePending-rest_added add (j ∷ jids) statuses alive h =
      NonePending-add_batches types add alive _ 0 (j ∷ jids) statuses (omega arith) h

  abbrev Reported : Result GroupError CreateGroupResult → Type 0
  Reported (err e) = Unit
  Reported (ok result) = AllDecided result.participants

  module _ (answers : CreateAnswers types) (input : CreateGroupInput) where
    Reported-created :
        (jids : List Jid) (statuses : Statuses) (reply : Result CallError (CreatedGroup types))
        → ((i : ℕ) → answers.add.is_cancelled i ≡ false)
        → IsResolved types jids statuses
        → Reported (created types answers input (jids, statuses) reply)
    Reported-created jids statuses (err e) alive h = elim (Bool-cases e.is_rate_limit) [
      | inl r ↦ rw r tt
      | inr r ↦ rw r tt
    ]
    Reported-created jids statuses (ok info) alive h = AllDecided-status_list _ input.participants (
        NonePending-rest_added answers.add _ _ alive (
          Covered-apply_participant_results types _ info.participants _ statuses (
            Covered-weaken statuses
              (λ k e.
                ground (arith, e, among-take-drop types (participant_add_batch_len types) jids k))
              h)))

    module _ (describe : JidError → String) (country : String) (limits : GroupLimits) (now : ℕ)
        (clock : GroupClock) where
      Reported-allowed :
          (r : List Jid × Statuses) (checked : Result GroupError GroupClock)
          → ((i : ℕ) → answers.add.is_cancelled i ≡ false)
          → IsResolved types r.0 r.1
          → Reported (allowed_or_refused types answers input r clock checked).0
      Reported-allowed r (err e) alive h = tt
      Reported-allowed r (ok next) alive h =
          Reported-created r.0 r.1 (answers.create (request_of types input r.0)) alive h

      Reported-with_participants :
          (o : Result GroupError (List Jid × Statuses))
          → ((i : ℕ) → answers.add.is_cancelled i ≡ false)
          → AreResolved types describe (is_user types) o
          → Reported (with_participants types limits now answers input clock o).0
      Reported-with_participants (err e) alive h = tt
      Reported-with_participants (ok r) alive h =
          Reported-allowed r (check_group_cooldown limits now clock) alive h

      -- If the context is not done between the batches, a group that is created comes with a decision
      -- on every participant that is reported: none is still pending, whatever WhatsApp answers.
      pub create_group-AllDecided :
          (result : CreateGroupResult)
          → ((i : ℕ) → answers.add.is_cancelled i ≡ false)
          → (create_group types describe country limits now answers input clock).0 ≡ ok result
          → AllDecided result.participants
      unfolding create_group
      create_group-AllDecided result alive e = subst Reported e reported
        where
          reported : Reported (create_group types describe country limits now answers input clock).0
          reported = elim (Bool-cases answers.logged_in) [
            | inr a ↦ rw a tt
            | inl a ↦ rw a (elim (Bool-cases (trim input.name == "")) [
              | inl b ↦ rw b tt
              | inr b ↦
                  rw b (elim (Bool-cases (ltb max_group_name_len (rune_len (trim input.name)))) [
                    | inl c ↦ rw c tt
                    | inr c ↦
                        rw c
                          (elim (Bool-cases
                            (ltb max_group_participants (length input.participants))) [
                              | inl d ↦ rw d tt
                              | inr d ↦ rw d (
                                  Reported-with_participants _ alive (
                                    AreResolved-resolve types describe (is_user types) country
                                      input.participants))
                            ])
                  ])
            ])
          ]
