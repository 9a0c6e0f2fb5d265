-- ===== src/Groups/Batches.antt =====
-- The batches in which addParticipantsPaced (internal/gateway/group.go) sends the addresses.
use mathlib.Core.List.{append_assoc}
use wa_gateway.Base.{
  ℕ, zero, suc, ◌≤◌, ◌&&◌, not, false, ◌≡◌, refl, ap, ◌∙◌, arith, List, [], ◌∷◌, ◌++◌, All,
  Bool-cases, inl, inr, take, drop, length, Result, ok, err, eqb,
}
use wa_gateway.Base.Paging.{length-drop, length-take_le}
use wa_gateway.WhatsApp.{JidTypes}
use wa_gateway.Groups.{GroupParticipant, CallError}
use wa_gateway.Groups.Status.{Statuses}
use wa_gateway.Groups.Paced.{AddAnswers, add_batches, batch_answered, add_participants_paced}

module _ {ℓ} {A : Type ℓ} where
  abbrev pub concat : List (List A) → List A
  concat [] = []
  concat (xs ∷ rest) = xs ++ concat rest

  take-append-drop : (n : ℕ) (xs : List A) → take n xs ++ drop n xs ≡ xs
  take-append-drop zero xs = refl
  take-append-drop (suc n) [] = refl
  take-append-drop (suc n) (x ∷ xs) = ap (λ ys. x ∷ ys) (take-append-drop n xs)

module _ (types : JidTypes) where
  open types use {Jid}

  -- a run of batches of at most five that makes up the addresses, or an initial part of them
  pub record IsPaced (batches : List (List Jid)) (jids : List Jid) : Type 0 where
    pub small : All (λ batch. length batch ≤ 5) batches
    pub left : List Jid
    pub whole : concat batches ++ left ≡ jids

  IsPaced-nil : (jids : List Jid) → IsPaced [] jids
  IsPaced-nil jids = record { small = tt; left = jids; whole = refl }

  IsPaced-cons :
      (batches : List (List Jid)) (jids : List Jid)
      → IsPaced batches (drop 5 jids)
      → IsPaced (take 5 jids ∷ batches) jids
  IsPaced-cons batches jids h = record {
    small = (length-take_le 5 jids, h.small);
    left = h.left;
    whole =
        append_assoc (take 5 jids) (concat batches) h.left
        ∙ ap (λ ys. take 5 jids ++ ys) h.whole
        ∙ take-append-drop 5 jids;
  }

  IsPaced-batch_answered :
      (jids : List Jid) (answer : Result CallError (List (GroupParticipant types)))
      (more : Statuses → List (List Jid) × Statuses) (statuses : Statuses)
      → ((later : Statuses) → IsPaced (more later).0 (drop 5 jids))
      → IsPaced (batch_answered types jids (take 5 jids) answer more statuses).0 jids
  unfolding batch_answered
  IsPaced-batch_answered jids (ok reply) more statuses h = IsPaced-cons _ jids (h _)
  IsPaced-batch_answered jids (err e) more statuses h = elim (Bool-cases e.is_rate_limit) [
    | inl r ↦ rw r (IsPaced-cons [] jids (IsPaced-nil (drop 5 jids)))
    | inr r ↦ rw r (IsPaced-cons _ jids (h _))
  ]

  IsPaced-add_batches :
      (answers : AddAnswers types) (fuel n : ℕ) (jids : List Jid) (statuses : Statuses)
      → IsPaced (add_batches types answers fuel n jids statuses).0 jids
  unfolding add_batches
  IsPaced-add_batches answers zero n jids statuses = IsPaced-nil jids
  IsPaced-add_batches answers (suc fuel) n [] statuses = IsPaced-nil []
  IsPaced-add_batches answers (suc fuel) n (j ∷ jids) statuses =
      elim (Bool-cases (not (eqb n 0) && answers.is_cancelled n)) [
        | inl c ↦ rw c (IsPaced-nil (j ∷ jids))
        | inr c ↦ rw c (
            IsPaced-batch_answered (j ∷ jids) (answers.update n) _ statuses
              (λ later. IsPaced-add_batches answers fuel (suc n) (drop 5 (j ∷ jids)) later))
      ]

  -- the answer is not that WhatsApp limits the rate
  abbrev pub IsTolerable {ℓ} : {A : Type ℓ} → Result CallError A → Type 0
  IsTolerable (ok reply) = Unit
  IsTolerable (err e) = e.is_rate_limit ≡ false

  concat-batch_answered :
      (jids : List Jid) (answer : Result CallError (List (GroupParticipant types)))
      (more : Statuses → List (List Jid) × Statuses) (statuses : Statuses)
      → IsTolerable answer
      → ((later : Statuses) → concat (more later).0 ≡ drop 5 jids)
      → concat (batch_answered types jids (take 5 jids) answer more statuses).0 ≡ jids
  unfolding batch_answered
  concat-batch_answered jids (ok reply) more statuses t h =
      ap (λ ys. take 5 jids ++ ys) (h _) ∙ take-append-drop 5 jids
  concat-batch_answered jids (err e) more statuses t h =
      rw t (ap (λ ys. take 5 jids ++ ys) (h _) ∙ take-append-drop 5 jids)

  module _ (answers : AddAnswers types) (alive : (i : ℕ) → answers.is_cancelled i ≡ false)
      (tolerable : (i : ℕ) → IsTolerable (answers.update i)) where
    concat-add_batches :
        (fuel n : ℕ) (jids : List Jid) (statuses : Statuses)
        → length jids ≤ fuel
        → concat (add_batches types answers fuel n jids statuses).0 ≡ jids
    unfolding add_batches
    concat-add_batches zero n [] statuses f = refl
    concat-add_batches zero n (j ∷ jids) statuses f = absurd (omega arith)
    concat-add_batches (suc fuel) n [] statuses f = refl
    concat-add_batches (suc fuel) n (j ∷ jids) statuses f =
        let goes : (not (eqb n 0) && answers.is_cancelled n) ≡ false = ground (arith, alive n) in
        rw goes (
          concat-batch_answered (j ∷ jids) (answers.update n) _ statuses (tolerable n) (λ later.
            concat-add_batches fuel (suc n) (drop 5 (j ∷ jids)) later
              (omega (arith, length-drop 5 (j ∷ jids)))))

    -- If the context is not done between the batches and no answer is that WhatsApp limits the rate,
    -- then every address is sent, once and in order, in batches of at most five, whatever other calls
    -- fail.
    pub add_participants_paced-concat :
        (jids : List Jid) (statuses : Statuses)
        → (concat (add_participants_paced types answers jids statuses).0 ≡ jids)
          × All (λ batch. length batch ≤ 5) (add_participants_paced types answers jids statuses).0
    add_participants_paced-concat jids statuses = (
      concat-add_batches (length jids) 0 jids statuses (omega arith),
      (IsPaced-add_batches answers (length jids) 0 jids statuses).small,
    )
