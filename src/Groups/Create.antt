-- ===== src/Groups/Create.antt =====
-- CreateGroup (internal/gateway/group.go).
use wa_gateway.Base.{
  ℕ, String, Bool, not, ◌==◌, List, [], ◌∷◌, Result, ok, err, ltb, if◌then◌else◌, take, drop,
  length, trim,
}
use wa_gateway.Phone.Recipient.{JidError}
use wa_gateway.WhatsApp.{JidTypes}
use wa_gateway.Groups.{
  CallError, GroupError, not_logged_in, name_required, name_too_long, too_many_participants,
  whatsapp_rate_limited, call_failed, GroupParticipant, max_group_participants, max_group_name_len,
}
use wa_gateway.Groups.Runes.{rune_len}
use wa_gateway.Groups.Status.{ParticipantStatus, Statuses, status_list}
use wa_gateway.Groups.Cooldown.{GroupLimits, GroupClock, check_group_cooldown}
use wa_gateway.Groups.Participants.{resolve_participants, apply_participant_results}
use wa_gateway.Groups.Paced.{participant_add_batch_len, AddAnswers, add_participants_paced}

pub record CreateGroupInput : Type 0 where
  pub name : String
  pub topic : String
  pub participants : List String
  pub announce : Bool
  pub is_locked : Bool

pub record CreateGroupResult : Type 0 where
  pub jid : String
  pub name : String
  pub invite_link : String
  pub participants : List ParticipantStatus

module _ (types : JidTypes) where
  open types use {Jid, to_string}

  -- what the code reads of types.GroupInfo after CreateGroup
  pub record CreatedGroup : Type 0 where
    pub jid : Jid
    pub participants : List (GroupParticipant types)

  -- whatsmeow.ReqCreateGroup
  pub record CreateRequest : Type 0 where
    pub name : String
    pub participants : List Jid
    pub is_announce : Bool
    pub is_locked : Bool

  -- what WhatsApp answers; the topic is set without looking at the answer
  pub record CreateAnswers : Type 0 where
    pub logged_in : Bool
    pub create : CreateRequest → Result CallError CreatedGroup
    pub add : AddAnswers types
    pub invite_link : Jid → Result CallError String

  abbrev pub link_or_empty : Result CallError String → String
  link_or_empty (ok link) = link
  link_or_empty (err e) = ""

  -- the first batch is created with the group; the rest is added after it
  abbrev pub rest_added : AddAnswers types → List Jid → Statuses → Statuses
  rest_added add [] statuses = statuses
  rest_added add (j ∷ rest) statuses = (add_participants_paced types add (j ∷ rest) statuses).1

  -- the part after CreateGroup has answered
  abbrev pub created :
      CreateAnswers
      → CreateGroupInput
      → List Jid × Statuses
      → Result CallError CreatedGroup
      → Result GroupError CreateGroupResult
  created answers input r (err e) =
      if e.is_rate_limit then err whatsapp_rate_limited else err (call_failed e)
  created answers input (jids, statuses) (ok info) =
      let first = take (participant_add_batch_len types) jids in
      let rest = drop (participant_add_batch_len types) jids in
      let applied = apply_participant_results types info.participants first statuses in
      ok (record {
        jid = to_string info.jid;
        name = trim input.name;
        invite_link = link_or_empty (answers.invite_link info.jid);
        participants = status_list (rest_added answers.add rest applied) input.participants;
      })

  abbrev pub request_of : CreateGroupInput → List Jid → CreateRequest
  request_of input jids = record {
    name = trim input.name;
    participants = take (participant_add_batch_len types) jids;
    is_announce = input.announce;
    is_locked = input.is_locked;
  }

  -- the part after resolveParticipants: the time is noted before the group is asked for
  abbrev pub allowed_or_refused :
      CreateAnswers
      → CreateGroupInput
      → List Jid × Statuses
      → GroupClock
      → Result GroupError GroupClock
      → Result GroupError CreateGroupResult × GroupClock
  allowed_or_refused answers input r clock (err e) = (err e, clock)
  allowed_or_refused answers input r clock (ok next) =
      (created answers input r (answers.create (request_of input r.0)), next)

  abbrev pub with_participants :
      GroupLimits
      → ℕ
      → CreateAnswers
      → CreateGroupInput
      → GroupClock
      → Result GroupError (List Jid × Statuses)
      → Result GroupError CreateGroupResult × GroupClock
  with_participants limits now answers input clock (err e) = (err e, clock)
  with_participants limits now answers input clock (ok r) =
      allowed_or_refused answers input r clock (check_group_cooldown limits now clock)

  -- CreateGroup
  unfoldable pub create_group :
      (JidError → String)
      → String
      → GroupLimits
      → ℕ
      → CreateAnswers
      → CreateGroupInput
      → GroupClock
      → Result GroupError CreateGroupResult × GroupClock
  create_group describe country limits now answers input clock =
      if not answers.logged_in
      then (err not_logged_in, clock)
      else if trim input.name == ""
      then (err name_required, clock)
      else if ltb max_group_name_len (rune_len (trim input.name))
      then (err name_too_long, clock)
      else if ltb max_group_participants (length input.participants)
      then (err too_many_participants, clock)
      else with_participants limits now answers input clock
          (resolve_participants types describe country input.participants)
