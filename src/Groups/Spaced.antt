-- ===== src/Groups/Spaced.antt =====
-- The pauses that checkGroupCooldown (internal/gateway/group.go) keeps between the groups of a
-- session, and what Status (internal/gateway/session.go) says of them.
use wa_gateway.Base.{
  ℕ, ◌+◌, ◌*◌, ◌≤◌, Bool, true, false, ◌≡◌, refl, sym, subst, arith, List, [], ◌∷◌, Option, none,
  some, ap, is_positive, pos_part, String, Result, ok, err, Bool-cases, inl, inr,
}
use wa_gateway.Phone.Recipient.{JidError}
use wa_gateway.WhatsApp.{JidTypes}
use wa_gateway.Groups.{GroupError, quiet_period, cooldown}
use wa_gateway.Groups.Create.{create_group}
use wa_gateway.Groups.Asked.{GroupCreation, asked_times, create_group-IsChecked}
use wa_gateway.Groups.Cooldown.{
  GroupLimits, GroupClock, hour, is_within, check_group_cooldown, group_create_allowed_at,
}

abbrev pub is_refused : {A : Type 0} → Result GroupError A → Bool
is_refused (ok a) = false
is_refused (err e) = true

abbrev pub is_set {ℓ} : {A : Type ℓ} → Option A → Bool
is_set none = false
is_set (some a) = true

refused-allowed_at :
    (limits : GroupLimits) (now : ℕ) (paired last : Option ℕ)
    → is_refused
        (check_group_cooldown limits now (record { paired_at = paired; last_group_create = last }))
      ≡ is_set (
          group_create_allowed_at limits now
            (record { paired_at = paired; last_group_create = last }))
unfolding check_group_cooldown group_create_allowed_at
refused-allowed_at limits now none none = refl
refused-allowed_at limits now none (some l) = ground arith
refused-allowed_at limits now (some p) none = ground arith
refused-allowed_at limits now (some p) (some l) = ground arith

-- checkGroupCooldown refuses exactly when Status reports a time, still ahead, from which a group may
-- be created.
pub check_group_cooldown-allowed_at :
    (limits : GroupLimits) (now : ℕ) (clock : GroupClock)
    → is_refused (check_group_cooldown limits now clock)
      ≡ is_set (group_create_allowed_at limits now clock)
check_group_cooldown-allowed_at limits now clock =
    refused-allowed_at limits now clock.paired_at clock.last_group_create

-- each time is at least `gap` after the one before, the first after `last` if that is set
abbrev pub IsSpaced : ℕ → Option ℕ → List ℕ → Type 0
IsSpaced gap last [] = Unit
IsSpaced gap none (t ∷ times) = IsSpaced gap (some t) times
IsSpaced gap (some last) (t ∷ times) = (last + gap ≤ t) × IsSpaced gap (some t) times

module _ (limits : GroupLimits) where
  abbrev gap : ℕ
  gap = pos_part limits.cooldown_hours * hour

  -- a time that passes the check is noted, the time of pairing is kept, and the cooldown is over
  check_passed :
      (now : ℕ) (clock next : GroupClock)
      → check_group_cooldown limits now clock ≡ ok next
      → (next.last_group_create ≡ some now)
        × (is_within limits.cooldown_hours clock.last_group_create now ≡ false)
  unfolding check_group_cooldown
  check_passed now clock next h =
      elim (Bool-cases (is_within limits.quiet_hours clock.paired_at now)) [
        | inl q ↦ let read : err quiet_period ≡ ok next = rw q at h in absurd (ground (arith, read))
        | inr q ↦ elim (Bool-cases (is_within limits.cooldown_hours clock.last_group_create now)) [
          | inl c ↦
              let read : err cooldown ≡ ok next = rw (q, c) at h in absurd (ground (arith, read))
          | inr c ↦
              let read : ok (record clock { last_group_create = some now }) ≡ ok next =
                rw (q, c) at h in
              let same : record clock { last_group_create = some now } ≡ next = cc in
              (sym (ap (λ (x : GroupClock). x.last_group_create) same), c)
        ]
      ]

  IsSpaced-cons :
      (now : ℕ) (last : Option ℕ) (times : List ℕ)
      → is_positive limits.cooldown_hours ≡ true
      → is_within limits.cooldown_hours last now ≡ false
      → IsSpaced gap (some now) times
      → IsSpaced gap last (now ∷ times)
  IsSpaced-cons now none times p c h = h
  IsSpaced-cons now (some l) times p c h = (ground (arith, p, c), h)

IsSpaced-nil : (n : ℕ) (last : Option ℕ) → IsSpaced n last []
IsSpaced-nil n none = tt
IsSpaced-nil n (some l) = tt

-- If a cooldown is configured and CreateGroup is called on one session, one call after the other,
-- then the times at which WhatsApp is asked for a group, whatever it answers, are at least the
-- cooldown apart, the first from the creation that the session remembers.
pub asked_times-IsSpaced :
    (types : JidTypes) (describe : JidError → String) (country : String) (limits : GroupLimits)
    (calls : List (GroupCreation types)) (clock : GroupClock)
    → is_positive limits.cooldown_hours ≡ true
    → IsSpaced
        (pos_part limits.cooldown_hours * hour)
        clock.last_group_create
        (asked_times types describe country limits calls clock)
unfolding asked_times
asked_times-IsSpaced types describe country limits [] clock p =
    IsSpaced-nil (gap limits) clock.last_group_create
asked_times-IsSpaced types describe country limits ((now, answers, input) ∷ calls) clock p =
    let r = create_group types describe country limits now answers input clock in
    let onward = asked_times-IsSpaced types describe country limits calls r.1 p in
    elim (create_group-IsChecked types describe country limits now answers input clock) [
      | inl (silent, same) ↦ rw silent (
          subst
            (λ (c : GroupClock).
              IsSpaced (gap limits) c.last_group_create
                (asked_times types describe country limits calls r.1))
            same onward)
      | inr (asked, passed) ↦
          let (noted, over) = check_passed limits now clock r.1 passed in
          rw asked (IsSpaced-cons limits now clock.last_group_create _ p over (rw noted at onward))
    ]
