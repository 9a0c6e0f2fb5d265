-- ===== src/Api/Groups.antt =====
-- The handlers of groups (internal/api/group.go) but for handleGroupRaw and those of the archive: from the decoded request and
-- the operation of the session with a name, if there is one, to the reply. A body is `none` where it
-- is no JSON; of an error's reply the status is kept.
use Prim.Native.String.{◌++◌}
use wa_gateway.Base.{
  ℕ, String, Bool, true, false, ◌&&◌, ◌||◌, ◌==◌, List, Option, none, some, Result, ok, err,
  if◌then◌else◌, is_empty, trim,
}
use wa_gateway.Base.Text.{contains}
use wa_gateway.Phone.Recipient.{JidError, not_a_group}
use wa_gateway.Groups.{
  GroupError, not_logged_in, name_required, name_too_long, too_many_participants, no_participants,
  quiet_period, cooldown, whatsapp_rate_limited, bad_name, decision_required, tag_required,
  bad_group, call_failed,
}
use wa_gateway.Groups.Status.{ParticipantStatus}
use wa_gateway.Groups.Cooldown.{GroupClock}
use wa_gateway.Groups.Create.{CreateGroupInput, CreateGroupResult}
use wa_gateway.Groups.Settings.{GroupDetail, UpdateGroupInput, GroupCall, RawNode, raw}
use wa_gateway.Groups.Requests.{JoinRequest}
use wa_gateway.Api.Sessions.{Reply, replied, refused}
use wa_gateway.Api.Params.{session_name}
use wa_gateway.Api.Sends.{with_session}

-- the errors of CreateGroup that errors.Is finds
abbrev is_too_soon : GroupError → Bool
is_too_soon quiet_period = true
is_too_soon cooldown = true
is_too_soon whatsapp_rate_limited = true
is_too_soon _ = false

module _ (describe : JidError → String) where
  -- The text of an error, without the time that remains and the words put before an error of whatsmeow,
  -- which end in a colon and a space.
  abbrev error_text : GroupError → String
  error_text not_logged_in = "session is not logged in"
  error_text name_required = "group name is required"
  error_text name_too_long = "group name too long (max 25 characters)"
  error_text too_many_participants = "too many participants (max 256)"
  error_text no_participants = "participants is required"
  error_text quiet_period =
      "session was paired recently; group creation is blocked during the quiet period"
  error_text cooldown = "group creation cooldown active; try again later"
  error_text whatsapp_rate_limited = "rate limited by WhatsApp; stop and try again later"
  error_text bad_name = "group name must be 1-25 characters"
  error_text decision_required = "approve or reject is required"
  error_text tag_required = "tag is required"
  error_text (bad_group not_a_group) = "group jid must end with @g.us"
  error_text (bad_group e) = "invalid group jid: " ++ describe e
  error_text (call_failed e) = e.message

  abbrev is_request_error : String → Bool
  is_request_error msg =
      contains msg "is required"
      || contains msg "too long"
      || contains msg "too many"
      || contains msg "must end with"
      || contains msg "invalid group jid"
      || contains msg "must be 1-"
      || contains msg "nothing to update"

  -- groupErrStatus
  unfoldable pub group_err_status : GroupError → ℕ
  group_err_status e =
      if is_request_error (error_text e)
      then 400
      else if contains (error_text e) "not logged in"
      then 409
      else if is_too_soon e
      then 429
      else 502

  abbrev pub group_reply {ℓ} : {A : Type ℓ} → ℕ → Result GroupError A → Reply A
  group_reply status (ok a) = replied status a
  group_reply status (err e) = refused (group_err_status e)

  abbrev created_with :
      Option (CreateGroupInput → GroupClock → Result GroupError CreateGroupResult × GroupClock)
      → CreateGroupInput
      → GroupClock
      → Reply CreateGroupResult × GroupClock
  created_with none input clock = (refused 404, clock)
  created_with (some create) input clock =
      let (result, next) = create input clock in (group_reply 201 result, next)

  -- handleCreateGroup
  unfoldable pub handle_create_group :
      (String
        → Option (CreateGroupInput → GroupClock → Result GroupError CreateGroupResult × GroupClock))
      → Option (String × CreateGroupInput)
      → GroupClock
      → Reply CreateGroupResult × GroupClock
  handle_create_group create none clock = (refused 400, clock)
  handle_create_group create (some (session, input)) clock =
      if trim input.name == ""
      then (refused 400, clock)
      else created_with (create (session_name session)) input clock

  -- handleParticipantChange, which the handlers that add, remove, promote and demote call
  unfoldable pub handle_participant_change :
      (String → Option (String → List String → Result GroupError (List ParticipantStatus)))
      → String
      → Option (String × List String)
      → Reply (List ParticipantStatus)
  handle_participant_change change jid none = refused 400
  handle_participant_change change jid (some (session, participants)) =
      if is_empty participants
      then refused 400
      else with_session (change (session_name session)) (λ f. group_reply 200 (f jid participants))

  -- handleGetGroup and handleGroupInviteLink, with the parameters `invite` and `reset`
  unfoldable pub handle_get_group :
      (String → Option (String → Bool → Result GroupError GroupDetail))
      → String
      → String
      → String
      → Reply GroupDetail
  handle_get_group detail jid session invite =
      with_session (detail (session_name session)) λ f. group_reply 200 (f jid (invite == "true"))

  unfoldable pub handle_group_invite_link :
      (String → Option (String → Bool → Result GroupError String))
      → String
      → String
      → String
      → Reply String
  handle_group_invite_link link jid session reset =
      with_session (link (session_name session)) λ f. group_reply 200 (f jid (reset == "true"))

  abbrev is_missing {ℓ} : {A : Type ℓ} → Option A → Bool
  is_missing none = true
  is_missing (some a) = false

  abbrev update_reply : Result (List GroupCall × GroupError) (List GroupCall) → Reply Bool
  update_reply (ok calls) = replied 200 true
  update_reply (err e) = refused (group_err_status e.1)

  -- handleUpdateGroup
  unfoldable pub handle_update_group :
      (String
        → Option
            (String → UpdateGroupInput → Result (List GroupCall × GroupError) (List GroupCall)))
      → String
      → Option (String × UpdateGroupInput)
      → Reply Bool
  handle_update_group update jid none = refused 400
  handle_update_group update jid (some (session, input)) =
      if is_missing input.name
        && is_missing input.topic
        && is_missing input.announce
        && is_missing input.is_locked
      then refused 400
      else with_session (update (session_name session)) (λ f. update_reply (f jid input))

  -- handleSetJoinApproval
  unfoldable pub handle_set_join_approval :
      (String → Option (String → Bool → Result GroupError (Unit {0})))
      → String
      → Option (String × Option Bool)
      → Reply (Unit {0})
  handle_set_join_approval change jid none = refused 400
  handle_set_join_approval change jid (some (session, none)) = refused 400
  handle_set_join_approval change jid (some (session, some on)) =
      with_session (change (session_name session)) λ f. group_reply 200 (f jid on)

  -- handleListJoinRequests
  unfoldable pub handle_list_join_requests :
      (String → Option (String → Result GroupError (List JoinRequest)))
      → String
      → String
      → Reply (List JoinRequest)
  handle_list_join_requests list jid session =
      with_session (list (session_name session)) λ f. group_reply 200 (f jid)

  -- handleDecideJoinRequests: the body is the session, whom to approve and whom to reject
  unfoldable pub handle_decide_join_requests :
      (String
        → Option (String → List String → List String → Result GroupError (List ParticipantStatus)))
      → String
      → Option (String × List String × List String)
      → Reply (List ParticipantStatus)
  handle_decide_join_requests decide jid none = refused 400
  handle_decide_join_requests decide jid (some (session, to_approve, to_reject)) =
      if is_empty to_approve && is_empty to_reject
      then refused 400
      else with_session (decide (session_name session))
          (λ f. group_reply 200 (f jid to_approve to_reject))

  -- handleGroupRawSet
  unfoldable pub handle_group_raw_set :
      (String → Option (String → RawNode → Result GroupError String))
      → String
      → Option (String × RawNode)
      → Reply String
  handle_group_raw_set send jid none = refused 400
  handle_group_raw_set send jid (some (session, raw tag attrs content kids)) =
      if trim tag == ""
      then refused 400
      else with_session (send (session_name session))
          (λ f. group_reply 200 (f jid (raw tag attrs content kids)))

  -- handleLeaveGroup
  unfoldable pub handle_leave_group :
      (String → Option (String → Result GroupError (Unit {0}))) → String → String → Reply (Unit {0})
  handle_leave_group leave jid session =
      with_session (leave (session_name session)) λ f. group_reply 200 (f jid)
