-- ===== src/Groups/Settings.antt =====
-- The settings and the metadata of a group: GroupDetail, GroupInviteLink, UpdateGroup,
-- SetJoinApproval, LeaveGroup, and the raw queries (internal/gateway/group.go).
use wa_gateway.Base.{
  ℕ, String, Bool, ◌||◌, ◌==◌, List, [], ◌∷◌, ◌++◌, Option, none, some, Result, ok, err, ltb,
  if◌then◌else◌, trim, ◌>>=◌, Assoc, map,
}
use wa_gateway.WhatsApp.{JidTypes}
use wa_gateway.Groups.{
  CallError, GroupError, bad_name, tag_required, GroupParticipant, max_group_name_len, addressed,
  called,
}
use wa_gateway.Groups.Runes.{rune_len}

pub record GroupMember : Type 0 where
  pub jid : String
  pub phone : String
  pub is_admin : Bool
  pub is_super_admin : Bool

pub record GroupDetail : Type 0 where
  pub jid : String
  pub name : String
  pub topic : String
  pub owner_jid : String
  pub is_announce : Bool
  pub is_locked : Bool
  pub join_approval : Bool
  pub created_at : ℕ
  pub participants : List GroupMember
  pub invite_link : String

-- UpdateGroupInput; `none` leaves a setting as it is
pub record UpdateGroupInput : Type 0 where
  pub name : Option String
  pub topic : Option String
  pub announce : Option Bool
  pub is_locked : Option Bool

-- the calls of whatsmeow that change a group
pub data GroupCall : Type 0 where
  set_name set_topic : String → GroupCall
  set_announce set_locked set_join_approval : Bool → GroupCall
  leave : GroupCall

-- RawNode; a list of nodes is a type of its own
mutual
  pub data RawNode : Type 0 where
    raw : String → Assoc String → String → RawNodes → RawNode

  pub data RawNodes : Type 0 where
    no_more : RawNodes
    next : RawNode → RawNodes → RawNodes

-- waBinary.Node, whose content is nothing, a text or a list of nodes
mutual
  pub data Node : Type 0 where
    node : String → Assoc String → NodeContent → Node

  pub data NodeContent : Type 0 where
    empty : NodeContent
    bytes : String → NodeContent
    children : Nodes → NodeContent

  pub data Nodes : Type 0 where
    nil : Nodes
    cons : Node → Nodes → Nodes

abbrev content_of : String → Nodes → NodeContent
content_of content nil = if content == "" then empty else bytes content
content_of content (cons n rest) = children (cons n rest)

-- rawToNode
unfoldable mutual
  pub raw_to_node : RawNode → Node
  raw_to_node (raw tag attrs content kids) = node tag attrs (content_of content (raw_to_nodes kids))

  pub raw_to_nodes : RawNodes → Nodes
  raw_to_nodes no_more = nil
  raw_to_nodes (next n rest) = cons (raw_to_node n) (raw_to_nodes rest)

module _ (types : JidTypes) where
  open types use {Jid, user, server, to_string, default_user_server}

  -- what GroupDetail reads of types.GroupInfo; `created` is `none` for the zero time
  pub record GroupInfo : Type 0 where
    pub jid : Jid
    pub name : String
    pub topic : String
    pub owner_jid : Jid
    pub is_announce : Bool
    pub is_locked : Bool
    pub is_join_approval_required : Bool
    pub created : Option ℕ
    pub participants : List (GroupParticipant types)

  abbrev phone_of : GroupParticipant types → String
  phone_of p = elim p.phone_number [
    | some number ↦ user number
    | none ↦ if server p.jid == default_user_server then user p.jid else ""
  ]

  abbrev pub member_of : GroupParticipant types → GroupMember
  member_of p = record {
    jid = to_string p.jid;
    phone = phone_of p;
    is_admin = p.is_admin;
    is_super_admin = p.is_super_admin;
  }

  abbrev or_zero : Option ℕ → ℕ
  or_zero none = 0
  or_zero (some t) = t

  abbrev if_asked : Bool → Result CallError String → String
  if_asked with_invite (err e) = ""
  if_asked with_invite (ok link) = if with_invite then link else ""

  module _ (logged_in : Bool) (group : String) where
    unfoldable pub group_detail :
        (Jid → Result CallError GroupInfo)
        → (Jid → Result CallError String)
        → Bool
        → Result GroupError GroupDetail
    group_detail get_info get_link with_invite = addressed types logged_in group >>= λ gjid.
        called (get_info gjid) >>= λ info. ok (record {
          jid = to_string info.jid;
          name = info.name;
          topic = info.topic;
          owner_jid = to_string info.owner_jid;
          is_announce = info.is_announce;
          is_locked = info.is_locked;
          join_approval = info.is_join_approval_required;
          created_at = or_zero info.created;
          participants = map member_of info.participants;
          invite_link = if_asked with_invite (get_link gjid);
        })

    unfoldable pub group_invite_link :
        (Jid → Bool → Result CallError String) → Bool → Result GroupError String
    group_invite_link get_link reset =
        addressed types logged_in group >>= λ gjid. called (get_link gjid reset)

    -- One call after others: the calls that went through so far, and the error that ends them.
    abbrev pub attempt_call :
        (GroupCall → Result CallError (Unit {0}))
        → Option GroupCall
        → Result (List GroupCall × GroupError) (List GroupCall)
        → Result (List GroupCall × GroupError) (List GroupCall)
    attempt_call answer call (err e) = err e
    attempt_call answer none (ok done) = ok done
    attempt_call answer (some call) (ok done) = elim (called (answer call)) [
      | ok t ↦ ok (done ++ call ∷ [])
      | err e ↦ err (done, e)
    ]

    abbrev name_call : Option String → Result (List GroupCall × GroupError) (Option GroupCall)
    name_call none = ok none
    name_call (some n) =
        if trim n == "" || ltb max_group_name_len (rune_len (trim n))
        then err ([], bad_name)
        else ok (some (set_name (trim n)))

    abbrev call_with {ℓ} : {A : Type ℓ} → (A → GroupCall) → Option A → Option GroupCall
    call_with f none = none
    call_with f (some a) = some (f a)

    -- UpdateGroup: the calls that went through, and the error if there is one
    unfoldable pub update_group :
        (Jid → GroupCall → Result CallError (Unit {0}))
        → UpdateGroupInput
        → Result (List GroupCall × GroupError) (List GroupCall)
    update_group answer input = elim (addressed types logged_in group) [
      | err e ↦ err ([], e)
      | ok gjid ↦ name_call input.name >>= λ renamed.
          attempt_call (answer gjid) (call_with set_locked input.is_locked) (
            attempt_call (answer gjid) (call_with set_announce input.announce) (
              attempt_call (answer gjid) (call_with (λ t. set_topic (trim t)) input.topic)
                (attempt_call (answer gjid) renamed (ok []))))
    ]

    unfoldable pub change_join_approval :
        (Jid → GroupCall → Result CallError (Unit {0})) → Bool → Result GroupError (Unit {0})
    change_join_approval answer on =
        addressed types logged_in group >>= λ gjid. called (answer gjid (set_join_approval on))

    unfoldable pub leave_group :
        (Jid → GroupCall → Result CallError (Unit {0})) → Result GroupError (Unit {0})
    leave_group answer = addressed types logged_in group >>= λ gjid. called (answer gjid leave)

    -- GroupRawSet; `send` is SendIQ with the reply printed
    unfoldable pub group_raw_set :
        (Jid → Node → Result CallError String) → RawNode → Result GroupError String
    group_raw_set send (raw tag attrs content kids) = addressed types logged_in group >>= λ gjid.
        if trim tag == ""
        then err tag_required
        else called (send gjid (raw_to_node (raw tag attrs content kids)))
