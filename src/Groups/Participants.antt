-- ===== src/Groups/Participants.antt =====
-- resolveParticipants, applyParticipantResults and markPending (internal/gateway/group.go).
use Prim.Native.String
use wa_gateway.Base.{
  String, Bool, ◌&&◌, ◌==◌, List, [], ◌∷◌, ◌++◌, Option, none, some, insert, eqb, if◌then◌else◌,
  Result, ok, err, trim, is_empty,
}
use wa_gateway.Phone.Recipient.{JidError, parse_jid}
use wa_gateway.WhatsApp.{JidTypes}
use wa_gateway.Groups.{GroupError, no_participants, GroupParticipant}
use wa_gateway.Groups.Status.{
  ParticipantStatus, Statuses, pending, added, invited, exists, failed, is_pending, adjust, has,
  participant_error_text, is_emitted,
}

module _ (types : JidTypes) where
  open types use {Jid, user, server, to_string, default_user_server}

  -- the slice, the map and the set of the loop
  pub record Resolved : Type 0 where
    pub jids : List Jid
    pub statuses : Statuses
    pub seen : List String

  abbrev pub new_status : String → String → ParticipantStatus
  new_status p jid = record {
    phone = p;
    jid = jid;
    status = pending;
    code = 0;
    error = "";
    invite_code = "";
  }

  abbrev pub refused : String → String → ParticipantStatus
  refused p error = record {
    phone = p;
    jid = "";
    status = failed;
    code = 0;
    error = error;
    invite_code = "";
  }

  abbrev pub refuse : String → String → Resolved → Resolved
  refuse p error r = record r {
    statuses = insert (String.◌++◌ "raw:" p) (refused p error) r.statuses;
  }

  abbrev pub take_in : String → Jid → Resolved → Resolved
  take_in p j r = if is_emitted (user j) r.seen then r else record {
    jids = r.jids ++ j ∷ [];
    statuses = insert (user j) (new_status p (to_string j)) r.statuses;
    seen = user j ∷ r.seen;
  }

  -- `is_allowed` tells the servers apart; `describe` is err.Error()
  module _ (describe : JidError → String) (is_allowed : Jid → Bool) where
    abbrev pub resolve_one : String → Result JidError Jid → Resolved → Resolved
    resolve_one p (err e) r = refuse p (describe e) r
    resolve_one p (ok j) r = if is_allowed j then take_in p j r else refuse p "invalid phone" r

    -- the loop of resolveParticipants and of resolveRequesters
    unfoldable pub resolve_from : String → List String → Resolved → Resolved
    resolve_from country [] r = r
    resolve_from country (phone ∷ phones) r =
        let p = trim phone in
        resolve_from country phones
          (if p == "" then r else resolve_one p (parse_jid types p country) r)

    unfoldable pub resolve : String → List String → Result GroupError (List Jid × Statuses)
    resolve country phones =
        let r = resolve_from country phones (record { jids = []; statuses = []; seen = [] }) in
        if is_empty r.jids && is_empty r.statuses
        then err no_participants
        else ok (r.jids, r.statuses)

  abbrev pub is_user : Jid → Bool
  is_user j = server j == default_user_server

  abbrev pub resolve_participants :
      (JidError → String) → String → List String → Result GroupError (List Jid × Statuses)
  resolve_participants describe = resolve describe is_user

  -- the key of the participant that a reply is about
  abbrev pub reply_key : Statuses → GroupParticipant types → Option String
  reply_key statuses p =
      if has (user p.jid) statuses then some (user p.jid) else elim p.phone_number [
        | none ↦ none
        | some number ↦ if has (user number) statuses then some (user number) else none
      ]

  abbrev pub adjust_at :
      Option String → (ParticipantStatus → ParticipantStatus) → Statuses → Statuses
  adjust_at none change statuses = statuses
  adjust_at (some key) change statuses = adjust key change statuses

  abbrev invite_or : Option String → String → String
  invite_or none code = code
  invite_or (some code) old = code

  -- the switch of applyParticipantResults
  unfoldable pub apply_result : GroupParticipant types → ParticipantStatus → ParticipantStatus
  apply_result p st =
      if eqb p.error 0
      then record st { status = added }
      else if eqb p.error 403
      then record st {
        status = invited;
        code = p.error;
        error = participant_error_text p.error;
        invite_code = invite_or p.add_request st.invite_code;
      }
      else if eqb p.error 409
      then record st { status = exists; code = p.error }
      else record st { status = failed; code = p.error; error = participant_error_text p.error }

  -- the loop over the reply
  unfoldable pub apply_each :
      (GroupParticipant types → ParticipantStatus → ParticipantStatus)
      → List (GroupParticipant types)
      → Statuses
      → Statuses
  apply_each change [] statuses = statuses
  apply_each change (p ∷ reply) statuses =
      apply_each change reply (adjust_at (reply_key statuses p) (change p) statuses)

  -- the loop over a batch: those still pending change
  unfoldable pub settle : (ParticipantStatus → ParticipantStatus) → List Jid → Statuses → Statuses
  settle change [] statuses = statuses
  settle change (j ∷ batch) statuses =
      settle change batch
        (adjust (user j) (λ st. if is_pending st.status then change st else st) statuses)

  abbrev pub mark_pending : List Jid → String → Statuses → Statuses
  mark_pending batch reason = settle (λ st. record st { status = failed; error = reason }) batch

  unfoldable pub apply_participant_results :
      List (GroupParticipant types) → List Jid → Statuses → Statuses
  apply_participant_results reply batch statuses =
      settle (λ st. record st { status = added }) batch (apply_each apply_result reply statuses)
