-- ===== src/Groups/Requests.antt =====
-- The requests to join a group: ListJoinRequests, DecideJoinRequests and decideJoinRequests
-- (internal/gateway/group.go).
use wa_gateway.Base.{
  ℕ, String, Bool, ◌&&◌, ◌||◌, ◌==◌, List, [], ◌∷◌, ◌++◌, Option, none, some, Result, ok, err,
  if◌then◌else◌, ◌>>=◌, map, is_empty,
}
use wa_gateway.Phone.Recipient.{JidError}
use wa_gateway.WhatsApp.{JidTypes}
use wa_gateway.Groups.{
  CallError, GroupError, decision_required, GroupParticipant, addressed, called,
}
use wa_gateway.Groups.Status.{
  ParticipantStatus, ParticipantState, Statuses, approved, rejected, status_list,
}
use wa_gateway.Groups.Participants.{resolve, apply_each, settle}
use wa_gateway.Groups.Paced.{apply_change}

pub record JoinRequest : Type 0 where
  pub jid : String
  pub phone : String
  pub requested_at : ℕ

-- ParticipantChangeApprove and -Reject
pub data Decision : Type 0 where
  approve reject : Decision

module _ (types : JidTypes) where
  open types use {Jid, user, server, to_string, default_user_server, hidden_user_server}

  -- types.GroupParticipantRequest; `requested_at` is `none` for the zero time
  pub record PendingRequest : Type 0 where
    pub jid : Jid
    pub requested_at : Option ℕ

  abbrev or_zero : Option ℕ → ℕ
  or_zero none = 0
  or_zero (some t) = t

  abbrev user_or_empty : Option Jid → String
  user_or_empty none = ""
  user_or_empty (some j) = user j

  -- `number_of` is GetPNForLID, `none` where it fails or has no number
  abbrev pub join_request : (Jid → Option Jid) → PendingRequest → JoinRequest
  join_request number_of r = record {
    jid = to_string r.jid;
    phone =
        if server r.jid == default_user_server
        then user r.jid
        else if server r.jid == hidden_user_server
        then user_or_empty (number_of r.jid)
        else "";
    requested_at = or_zero r.requested_at;
  }

  abbrev pub is_requester : Jid → Bool
  is_requester j = server j == default_user_server || server j == hidden_user_server

  -- resolveRequesters
  abbrev pub resolve_requesters :
      (JidError → String) → String → List String → Result GroupError (List Jid × Statuses)
  resolve_requesters describe = resolve types describe is_requester

  abbrev Update : Type 0
  Update = Jid → List Jid → Decision → Result CallError (List (GroupParticipant types))

  module _ (describe : JidError → String) (country : String) (update : Update) where
    -- the reply is asked for if there is somebody to decide on, and who is not in it counts as decided
    abbrev pub decided :
        Jid → Decision → ParticipantState → List Jid → Statuses → Result GroupError Statuses
    decided gjid decision ok_status [] statuses = ok statuses
    decided gjid decision ok_status (j ∷ jids) statuses =
        called (update gjid (j ∷ jids) decision) >>= λ reply. ok (
          settle types (λ st. record st { status = ok_status }) (j ∷ jids)
            (apply_each types (apply_change types ok_status) reply statuses))

    -- decideJoinRequests
    unfoldable pub decide_each :
        Jid → List String → Decision → ParticipantState → Result GroupError (List ParticipantStatus)
    decide_each gjid raws decision ok_status = resolve_requesters describe country raws >>= λ r.
        decided gjid decision ok_status r.0 r.1 >>= λ statuses. ok (status_list statuses raws)

    abbrev decide_some :
        Jid → List String → Decision → ParticipantState → Result GroupError (List ParticipantStatus)
    decide_some gjid [] decision ok_status = ok []
    decide_some gjid (raw ∷ raws) decision ok_status =
        decide_each gjid (raw ∷ raws) decision ok_status

    -- DecideJoinRequests
    unfoldable pub decide_join_requests :
        Bool → String → List String → List String → Result GroupError (List ParticipantStatus)
    decide_join_requests logged_in group to_approve to_reject =
        addressed types logged_in group >>= λ gjid.
        if is_empty to_approve && is_empty to_reject
        then err decision_required
        else decide_some gjid to_approve approve approved >>= λ yes_list.
            decide_some gjid to_reject reject rejected >>= λ no_list. ok (yes_list ++ no_list)

  unfoldable pub list_join_requests :
      Bool
      → (Jid → Result CallError (List PendingRequest))
      → (Jid → Option Jid)
      → String
      → Result GroupError (List JoinRequest)
  list_join_requests logged_in get_requests number_of group =
      addressed types logged_in group >>= λ gjid.
      called (get_requests gjid) >>= λ requests. ok (map (join_request number_of) requests)
