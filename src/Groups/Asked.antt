-- ===== src/Groups/Asked.antt =====
-- When CreateGroup (internal/gateway/group.go) asks WhatsApp for a group, over calls on one session.
use wa_gateway.Base.{
  ℕ, Bool, true, false, not, ◌==◌, ◌≡◌, refl, subst, arith, List, [], ◌∷◌, String, ◌⊎◌,
  if◌then◌else◌, Result, ok, err, Bool-cases, inl, inr, ltb, trim, length,
}
use wa_gateway.Phone.Recipient.{JidError}
use wa_gateway.WhatsApp.{JidTypes}
use wa_gateway.Groups.{
  CallError, GroupError, call_failed, whatsapp_rate_limited, no_participants, max_group_name_len,
  max_group_participants,
}
use wa_gateway.Groups.Runes.{rune_len}
use wa_gateway.Groups.Status.{Statuses}
use wa_gateway.Groups.Cooldown.{GroupLimits, GroupClock, is_within, check_group_cooldown}
use wa_gateway.Groups.Create.{
  CreateGroupInput, CreateGroupResult, CreateAnswers, CreatedGroup, created, allowed_or_refused,
  create_group, with_participants,
}
use wa_gateway.Groups.Participants.{resolve_participants, resolve}

-- The results of CreateGroup that come after WhatsApp was asked for the group: a group, the error of
-- the call, or WhatsApp's rate limit.
abbrev pub was_asked : Result GroupError CreateGroupResult → Bool
was_asked (ok r) = true
was_asked (err (call_failed e)) = true
was_asked (err whatsapp_rate_limited) = true
was_asked (err _) = false

-- what CreateGroup is called with: the time, what WhatsApp answers, and the input
abbrev pub GroupCreation : JidTypes → Type 0
GroupCreation types = ℕ × CreateAnswers types × CreateGroupInput

module _ (types : JidTypes) (describe : JidError → String) (country : String)
    (limits : GroupLimits) where
  -- the times at which WhatsApp is asked for a group, when CreateGroup is called on one session, one
  -- call after the other
  unfoldable pub asked_times : List (GroupCreation types) → GroupClock → List ℕ
  asked_times [] clock = []
  asked_times ((now, answers, input) ∷ calls) clock =
      let (result, next) = create_group types describe country limits now answers input clock in
      let later = asked_times calls next in if was_asked result then now ∷ later else later

  -- a call leaves the clock and does not ask, or the cooldown let it through
  abbrev pub IsChecked : ℕ → GroupClock → Result GroupError CreateGroupResult × GroupClock → Type 0
  IsChecked now clock (result, next) =
      ((was_asked result ≡ false) × (next ≡ clock))
      ⊎ ((was_asked result ≡ true) × (check_group_cooldown limits now clock ≡ ok next))

  created-asked :
      (answers : CreateAnswers types) (input : CreateGroupInput) (r : List types.Jid × Statuses)
      (reply : Result CallError (CreatedGroup types))
      → was_asked (created types answers input r reply) ≡ true
  created-asked answers input r (ok info) = refl
  created-asked answers input r (err e) = ground arith

  allowed_or_refused-IsChecked :
      (now : ℕ) (answers : CreateAnswers types) (input : CreateGroupInput)
      (r : List types.Jid × Statuses) (clock : GroupClock)
      → IsChecked now clock
          (allowed_or_refused types answers input r clock (check_group_cooldown limits now clock))
  unfolding check_group_cooldown
  allowed_or_refused-IsChecked now answers input r clock =
      elim (Bool-cases (is_within limits.quiet_hours clock.paired_at now)) [
        | inl q ↦ rw q (inl (refl, refl))
        | inr q ↦ elim (Bool-cases (is_within limits.cooldown_hours clock.last_group_create now)) [
          | inl c ↦ rw (q, c) (inl (refl, refl))
          | inr c ↦ rw (q, c) (inr (created-asked answers input r _, refl))
        ]
      ]

  with_participants-IsChecked :
      (now : ℕ) (answers : CreateAnswers types) (input : CreateGroupInput) (clock : GroupClock)
      (resolved : Result GroupError (List types.Jid × Statuses))
      → ((e : GroupError) → resolved ≡ err e → was_asked (err e) ≡ false)
      → IsChecked now clock (with_participants types limits now answers input clock resolved)
  with_participants-IsChecked now answers input clock (err e) h = inl (h e refl, refl)
  with_participants-IsChecked now answers input clock (ok r) h =
      allowed_or_refused-IsChecked now answers input r clock

  error_of_if :
      (fails : Bool) (r : List types.Jid × Statuses) (e : GroupError)
      → ◌≡◌ {A = Result GroupError (List types.Jid × Statuses)}
          (if fails then err no_participants else ok r)
          (err e)
      → was_asked (err e) ≡ false
  error_of_if true r e h =
      let same : no_participants ≡ e = cc in
      subst (λ (x : GroupError). was_asked (err x) ≡ false) same refl
  error_of_if false r e h = cc

  error_of_resolve :
      (phones : List String) (e : GroupError)
      → resolve_participants types describe country phones ≡ err e
      → was_asked (err e) ≡ false
  unfolding resolve
  error_of_resolve phones e h = error_of_if _ _ e h

  pub create_group-IsChecked :
      (now : ℕ) (answers : CreateAnswers types) (input : CreateGroupInput) (clock : GroupClock)
      → IsChecked now clock (create_group types describe country limits now answers input clock)
  unfolding create_group
  create_group-IsChecked now answers input clock =
      let onward =
        with_participants-IsChecked now answers input clock
          (resolve_participants types describe country input.participants)
          (error_of_resolve input.participants) in
      elim (Bool-cases (not answers.logged_in)) [
        | inl a ↦ rw a (inl (refl, refl))
        | inr a ↦ elim (Bool-cases (trim input.name == "")) [
          | inl b ↦ rw (a, b) (inl (refl, refl))
          | inr b ↦ elim (Bool-cases (ltb max_group_name_len (rune_len (trim input.name)))) [
            | inl c ↦ rw (a, b, c) (inl (refl, refl))
            | inr c ↦ elim (Bool-cases (ltb max_group_participants (length input.participants))) [
              | inl d ↦ rw (a, b, c, d) (inl (refl, refl))
              | inr d ↦ rw (a, b, c, d) onward
            ]
          ]
        ]
      ]
