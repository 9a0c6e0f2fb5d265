-- ===== src/Groups/Covered.antt =====
-- Which participants can still be pending: the lemmas on the map of the statuses, on the resolving of
-- the request and on the batches (internal/gateway/group.go).
use wa_gateway.Base.{
  ℕ, zero, suc, String, Bool, true, false, not, ◌||◌, ◌==◌, ◌≡◌, refl, sym, subst, arith, List, [],
  ◌∷◌, ◌++◌, Option, none, some, All, eq_iff, insert, if◌then◌else◌, Bool-cases, inl, inr, take,
  drop, eqb,
}
use wa_gateway.WhatsApp.{JidTypes}
use wa_gateway.Groups.{GroupParticipant}
use wa_gateway.Groups.Status.{ParticipantStatus, Statuses, is_pending, adjust}
use wa_gateway.Groups.Participants.{
  settle, apply_each, apply_result, apply_participant_results, reply_key, adjust_at,
}

-- every entry that is pending has a key that `p` holds of
abbrev pub Covered : (String → Bool) → Statuses → Type 0
Covered p statuses = All (λ e. (not (is_pending e.1.status) || p e.0) ≡ true) statuses

-- a change after which nobody is pending
abbrev pub Settles : (ParticipantStatus → ParticipantStatus) → Type 0
Settles change = (st : ParticipantStatus) → is_pending (change st).status ≡ false

pub Covered-weaken :
    {p q : String → Bool} (statuses : Statuses)
    → ((k : String) → p k ≡ true → q k ≡ true)
    → Covered p statuses
    → Covered q statuses
Covered-weaken [] w h = tt
Covered-weaken ((key, st) ∷ statuses) w (e, h) =
    (ground (arith, w key), Covered-weaken statuses w h)

Covered-adjust :
    (p : String → Bool) (key : String) (change : ParticipantStatus → ParticipantStatus)
    (statuses : Statuses)
    → Settles change
    → Covered p statuses
    → Covered p (adjust key change statuses)
unfolding adjust
Covered-adjust p key change [] c h = tt
Covered-adjust p key change ((first, st) ∷ statuses) c (e, h) =
    (ground (arith, c st), Covered-adjust p key change statuses c h)

Covered-adjust_pending :
    (p : String → Bool) (key : String) (change : ParticipantStatus → ParticipantStatus)
    (statuses : Statuses)
    → Settles change
    → Covered (λ k. key == k || p k) statuses
    → Covered p (adjust key (λ st. if is_pending st.status then change st else st) statuses)
unfolding adjust
Covered-adjust_pending p key change [] c h = tt
Covered-adjust_pending p key change ((first, st) ∷ statuses) c (e, h) = (
  ground (arith, c st, eq_iff first key, eq_iff key first),
  Covered-adjust_pending p key change statuses c h,
)

pub Covered-insert :
    (p : String → Bool) (key : String) (new : ParticipantStatus) (statuses : Statuses)
    → (not (is_pending new.status) || p key) ≡ true
    → Covered p statuses
    → Covered p (insert key new statuses)
unfolding insert
Covered-insert p key new [] n h = (n, tt)
Covered-insert p key new ((first, st) ∷ statuses) n (e, h) = elim (Bool-cases (first == key)) [
  | inl same ↦ rw same (
    subst (λ k. (not (is_pending new.status) || p k) ≡ true) (sym ((eq_iff first key).0 same)) n,
    h,
  )
  | inr other ↦ rw other (e, Covered-insert p key new statuses n h)
]

module _ (types : JidTypes) where
  open types use {Jid, user}

  -- the user of one of the addresses
  abbrev pub among : List Jid → String → Bool
  among [] k = false
  among (j ∷ jids) k = user j == k || among jids k

  pub among-append :
      (xs ys : List Jid) (k : String) → among (xs ++ ys) k ≡ (among xs k || among ys k)
  among-append [] ys k = refl
  among-append (x ∷ xs) ys k = ground (arith, among-append xs ys k)

  pub among-take-drop :
      (n : ℕ) (jids : List Jid) (k : String)
      → among jids k ≡ (among (take n jids) k || among (drop n jids) k)
  among-take-drop zero jids k = refl
  among-take-drop (suc n) [] k = refl
  among-take-drop (suc n) (j ∷ jids) k = ground (arith, among-take-drop n jids k)

  pub Covered-settle :
      (p : String → Bool) (change : ParticipantStatus → ParticipantStatus) (batch : List Jid)
      (statuses : Statuses)
      → Settles change
      → Covered (λ k. among batch k || p k) statuses
      → Covered p (settle types change batch statuses)
  unfolding settle
  Covered-settle p change [] statuses c h = h
  Covered-settle p change (j ∷ batch) statuses c h = Covered-settle p change batch _ c (
      Covered-adjust_pending (λ k. among batch k || p k) (user j) change statuses c
        (Covered-weaken statuses (λ k e. ground (arith, e)) h))

  Settles-apply_result : (p : GroupParticipant types) → Settles (apply_result types p)
  unfolding apply_result
  Settles-apply_result p st = elim (Bool-cases (eqb p.error 0)) [
    | inl a ↦ rw a refl
    | inr a ↦ rw a (elim (Bool-cases (eqb p.error 403)) [
      | inl b ↦ rw b refl
      | inr b ↦ rw b (elim (Bool-cases (eqb p.error 409)) [ inl c ↦ rw c refl | inr c ↦ rw c refl ])
    ])
  ]

  Covered-adjust_at :
      (p : String → Bool) (key : Option String) (change : ParticipantStatus → ParticipantStatus)
      (statuses : Statuses)
      → Settles change
      → Covered p statuses
      → Covered p (adjust_at types key change statuses)
  Covered-adjust_at p none change statuses c h = h
  Covered-adjust_at p (some key) change statuses c h = Covered-adjust p key change statuses c h

  Covered-apply_each :
      (p : String → Bool) (change : GroupParticipant types → ParticipantStatus → ParticipantStatus)
      (reply : List (GroupParticipant types)) (statuses : Statuses)
      → ((x : GroupParticipant types) → Settles (change x))
      → Covered p statuses
      → Covered p (apply_each types change reply statuses)
  unfolding apply_each
  Covered-apply_each p change [] statuses c h = h
  Covered-apply_each p change (x ∷ reply) statuses c h =
      Covered-apply_each p change reply _ c
        (Covered-adjust_at p (reply_key types statuses x) (change x) statuses (c x) h)

  pub Covered-apply_participant_results :
      (p : String → Bool) (reply : List (GroupParticipant types)) (batch : List Jid)
      (statuses : Statuses)
      → Covered (λ k. among batch k || p k) statuses
      → Covered p (apply_participant_results types reply batch statuses)
  unfolding apply_participant_results
  Covered-apply_participant_results p reply batch statuses h =
      Covered-settle p _ batch _ (λ st. refl)
        (Covered-apply_each _ (apply_result types) reply statuses Settles-apply_result h)
