-- ===== src/Groups/Cooldown.antt =====
-- When a group may be created: checkGroupCooldown (internal/gateway/group.go) and what Status
-- reports of it (internal/gateway/session.go). Times are in nanoseconds.
use wa_gateway.Base.{
  ℕ, ◌+◌, ◌*◌, Bool, false, Option, none, some, ℤ, is_positive, pos_part, ltb, if◌then◌else◌,
  Result, ok, err,
}
use wa_gateway.Groups.{GroupError, quiet_period, cooldown}

-- GroupQuietHours and GroupCreateCooldownHours of the configuration
pub record GroupLimits : Type 0 where
  pub quiet_hours : ℤ
  pub cooldown_hours : ℤ

-- pairedAt and lastGroupCreate of a session; `none` is the zero time
pub record GroupClock : Type 0 where
  pub paired_at : Option ℕ
  pub last_group_create : Option ℕ

-- time.Hour
abbrev pub hour : ℕ
hour = 3600000000000

-- less than `hours` have passed since a time that is set
abbrev pub is_within : ℤ → Option ℕ → ℕ → Bool
is_within hours none now = false
is_within hours (some since) now =
    if is_positive hours then ltb now (since + pos_part hours * hour) else false

unfoldable pub check_group_cooldown : GroupLimits → ℕ → GroupClock → Result GroupError GroupClock
check_group_cooldown limits now clock =
    if is_within limits.quiet_hours clock.paired_at now
    then err quiet_period
    else if is_within limits.cooldown_hours clock.last_group_create now
    then err cooldown
    else ok (record clock { last_group_create = some now })

-- since + hours, where both are set
abbrev pub ends_at : ℤ → Option ℕ → Option ℕ
ends_at hours none = none
ends_at hours (some since) =
    if is_positive hours then some (since + pos_part hours * hour) else none

-- t.After(allowed), the zero time being before every other
abbrev pub later_of : Option ℕ → Option ℕ → Option ℕ
later_of none t = t
later_of (some a) none = some a
later_of (some a) (some t) = if ltb a t then some t else some a

abbrev pub if_ahead : ℕ → Option ℕ → Option ℕ
if_ahead now none = none
if_ahead now (some t) = if ltb now t then some t else none

-- GroupCreateAllowedAt of Status, before it is cut to seconds; `none` is "allowed now"
unfoldable pub group_create_allowed_at : GroupLimits → ℕ → GroupClock → Option ℕ
group_create_allowed_at limits now clock = if_ahead now (
    later_of (ends_at limits.quiet_hours clock.paired_at)
      (ends_at limits.cooldown_hours clock.last_group_create))
