-- ===== src/Groups/Status.antt =====
-- What became of each participant: ParticipantStatus, participantErrorText and the map of the
-- statuses (internal/gateway/group.go). The map's pointers are its entries: no two keys share one.
use wa_gateway.Base.{
  ℕ, String, Bool, true, false, ◌==◌, List, [], ◌∷◌, Option, none, some, Assoc, lookup, eqb,
  if◌then◌else◌, ◌||◌, trim,
}
use Prim.Native.String.{◌++◌}
use wa_gateway.Database.{itoa}

pub data ParticipantState : Type 0 where
  pending added invited exists failed removed promoted demoted approved rejected : ParticipantState

abbrev pub is_pending : ParticipantState → Bool
is_pending pending = true
is_pending _ = false

pub record ParticipantStatus : Type 0 where
  pub phone : String
  pub jid : String
  pub status : ParticipantState
  pub code : ℕ
  pub error : String
  pub invite_code : String

abbrev pub Statuses : Type 0
Statuses = Assoc ParticipantStatus

-- participantErrorText
unfoldable pub participant_error_text : ℕ → String
participant_error_text code =
    if eqb code 401
    then "participant blocked this account"
    else if eqb code 403
    then "privacy settings prevent direct add; invite required"
    else if eqb code 404
    then "not a WhatsApp user"
    else if eqb code 408
    then "participant left the group recently"
    else if eqb code 409
    then "already a participant"
    else if eqb code 500
    then "group is full"
    else "whatsapp error " ++ itoa code

-- a write through the pointer at a key, if there is one
unfoldable pub adjust : String → (ParticipantStatus → ParticipantStatus) → Statuses → Statuses
adjust key change [] = []
adjust key change ((first, st) ∷ statuses) =
    (first, if first == key then change st else st) ∷ adjust key change statuses

abbrev pub has : String → Statuses → Bool
has key [] = false
has key ((first, st) ∷ statuses) = first == key || has key statuses

-- the entry of a phone as it was written in the request
unfoldable pub find_phone : String → Statuses → Option (String × ParticipantStatus)
find_phone p [] = none
find_phone p ((key, st) ∷ statuses) =
    let rest = find_phone p statuses in if st.phone == p then some (key, st) else rest

abbrev pub at_key : String → Option ParticipantStatus → Option (String × ParticipantStatus)
at_key key none = none
at_key key (some st) = some (key, st)

abbrev pub or_else :
    Option (String × ParticipantStatus)
    → Option (String × ParticipantStatus)
    → Option (String × ParticipantStatus)
or_else none other = other
or_else (some found) other = some found

-- the status of one phone, with its key
unfoldable pub find_status : String → Statuses → Option (String × ParticipantStatus)
find_status p statuses =
    or_else (at_key ("raw:" ++ p) (lookup ("raw:" ++ p) statuses)) (find_phone p statuses)

abbrev pub is_emitted : String → List String → Bool
is_emitted key [] = false
is_emitted key (k ∷ emitted) = k == key || is_emitted key emitted

-- the loop of statusList, with the keys that were emitted
unfoldable pub list_from : List String → Statuses → List String → List ParticipantStatus
list_from emitted statuses [] = []
list_from emitted statuses (phone ∷ phones) =
    let p = trim phone in
    if p == "" then list_from emitted statuses phones else elim (find_status p statuses) [
      | none ↦ list_from emitted statuses phones
      | some found ↦
          if is_emitted found.0 emitted
          then list_from emitted statuses phones
          else found.1 ∷ list_from (found.0 ∷ emitted) statuses phones
    ]

unfoldable pub status_list : Statuses → List String → List ParticipantStatus
status_list statuses phones = list_from [] statuses phones
