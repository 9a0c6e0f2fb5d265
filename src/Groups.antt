-- ===== src/Groups.antt =====
-- Groups: internal/gateway/group.go. What WhatsApp answers is an argument of each operation; its
-- addresses are those of the interface in WhatsApp.
pub mod Status
pub mod Cooldown
pub mod Participants
pub mod Paced
pub mod Runes
pub mod Create
pub mod Settings
pub mod Requests
pub mod Covered
pub mod Listed
pub mod Resolved
pub mod Decided
pub mod Batches
pub mod Asked
pub mod Spaced
pub mod Examples
use wa_gateway.Base.{ℕ, String, Bool, Option, none, some, Result, ok, err, if◌then◌else◌, not}
use wa_gateway.Phone.Recipient.{JidError, parse_group_jid}
use wa_gateway.WhatsApp.{JidTypes}

-- an error of whatsmeow: whether it is ErrIQRateOverLimit, and its text
pub record CallError : Type 0 where
  pub is_rate_limit : Bool
  pub message : String

pub data GroupError : Type 0 where
  not_logged_in name_required name_too_long too_many_participants no_participants : GroupError
  quiet_period cooldown whatsapp_rate_limited bad_name decision_required tag_required : GroupError
  bad_group : JidError → GroupError
  call_failed : CallError → GroupError

abbrev pub max_group_name_len : ℕ
max_group_name_len = 25

abbrev pub max_group_participants : ℕ
max_group_participants = 256

module _ (types : JidTypes) where
  open types use {Jid}

  -- types.GroupParticipant; PhoneNumber is `none` when it is empty, and AddRequest is its code
  pub record GroupParticipant : Type 0 where
    pub jid : Jid
    pub phone_number : Option Jid
    pub is_admin : Bool
    pub is_super_admin : Bool
    pub error : ℕ
    pub add_request : Option String

  abbrev as_group : Result JidError Jid → Result GroupError Jid
  as_group (ok j) = ok j
  as_group (err e) = err (bad_group e)

  -- the two checks with which most operations start
  unfoldable pub addressed : Bool → String → Result GroupError Jid
  addressed logged_in group =
      if not logged_in then err not_logged_in else as_group (parse_group_jid types group)

-- the error of a call, wrapped
abbrev pub called {ℓ} : {A : Type ℓ} → Result CallError A → Result GroupError A
called (ok a) = ok a
called (err e) = err (call_failed e)
