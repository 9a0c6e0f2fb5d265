-- ===== src/Webhook/Retries.antt =====
-- The attempts of deliver (internal/gateway/webhook.go).
use wa_gateway.Base.{
  eqb, ℕ, zero, suc, ◌+◌, ◌*◌, ◌^◌, ◌<◌, ◌≤◌, ◌≡◌, refl, subst, ◌⊎◌, inl, inr, Bool-cases,
  if◌then◌else◌, arith, Bool, true, false, List, [], ◌∷◌, ℤ, pos, Result, String,
}
use native.Mathlib.Omega.{pow_step}
use wa_gateway.Webhook.{WebhookConfig}
use wa_gateway.Webhook.Deliver.{
  Outcome, delivered, gave_up, deliver, deliver_from, is_posted, attempts_of, backoff_of,
  wait_after,
}

-- `k` pauses, from `wait` on, each twice the one before
abbrev pub doubling : ℕ → ℕ → List ℤ
doubling wait zero = []
doubling wait (suc k) = pos wait ∷ doubling (wait * 2) k

-- the first `k` attempts from `n` on fail, and the gateway does not stop between
abbrev pub AllFail : (ℕ → Result String ℕ) → (ℕ → Bool) → ℕ → ℕ → Type 0
AllFail answer quits n zero = Unit
AllFail answer quits n (suc k) =
    (is_posted (answer n) ≡ false) × (quits n ≡ false) × AllFail answer quits (suc n) k

mul_pow : (w k : ℕ) → w * 2 * 2 ^ k ≡ w * 2 ^ suc k
mul_pow w k = grind (arith, pow_step 2 k)

le_mul_pow : (w k : ℕ) → w ≤ w * 2 ^ k
le_mul_pow w zero = omega arith
le_mul_pow w (suc k) = omega (arith, le_mul_pow (w * 2) k, mul_pow w k)

wait_after_small :
    (backoff n : ℕ) → backoff * 2 ^ n < 2 ^ 63 → wait_after backoff (suc n) ≡ pos (backoff * 2 ^ n)
wait_after_small backoff n h = ground arith

doubled : (backoff n : ℕ) → backoff * 2 ^ suc n ≡ backoff * 2 ^ n * 2
doubled backoff n = grind (arith, pow_step 2 n)

once : (w : ℕ) → w * 2 ^ 0 ≡ w
once w = omega arith

eqb-suc : (n : ℕ) → eqb (suc n) 0 ≡ false
eqb-suc n = ground arith

module _ (answer : ℕ → Result String ℕ) (quits : ℕ → Bool) (backoff : ℕ) where
  -- one failed attempt that is not the last
  deliver_from-failed :
      (left n : ℕ)
      → is_posted (answer (suc n)) ≡ false
      → quits (suc n) ≡ false
      → backoff * 2 ^ n < 2 ^ 63
      → deliver_from answer quits backoff (suc (suc left)) (suc n) ≡ (
          let rest = deliver_from answer quits backoff (suc left) (suc (suc n)) in
          record rest { waits = pos (backoff * 2 ^ n) ∷ rest.waits })
  unfolding deliver_from
  deliver_from-failed left n p q w = rw (p, eqb-suc left, q, wait_after_small backoff n w) refl

  deliver_from-posted :
      (left n : ℕ)
      → is_posted (answer n) ≡ true
      → deliver_from answer quits backoff (suc left) n
        ≡ record { outcome = delivered; posts = n; waits = [] }
  unfolding deliver_from
  deliver_from-posted left n e = rw e refl

  deliver_from-last :
      (n : ℕ)
      → is_posted (answer n) ≡ false
      → deliver_from answer quits backoff 1 n ≡ record { outcome = gave_up; posts = n; waits = [] }
  unfolding deliver_from
  deliver_from-last n e = rw e refl

  deliver_from-delivered :
      (k left n m : ℕ)
      → k < left
      → m ≡ suc n + k
      → AllFail answer quits (suc n) k
      → is_posted (answer m) ≡ true
      → backoff * 2 ^ n * 2 ^ k < 2 ^ 63
      → deliver_from answer quits backoff left (suc n)
        ≡ record { outcome = delivered; posts = m; waits = doubling (backoff * 2 ^ n) k }
  deliver_from-delivered zero zero n m h e f s w = elim h [ ]
  deliver_from-delivered (suc k) zero n m h e f s w = elim h [ ]
  deliver_from-delivered (suc k) (suc zero) n m h e f s w = absurd (omega arith)
  deliver_from-delivered zero (suc left) n m h e f s w = last (omega arith)
    where
      last :
          m ≡ suc n
          → deliver_from answer quits backoff (suc left) (suc n)
            ≡ record { outcome = delivered; posts = m; waits = [] }
      last same =
          let now : is_posted (answer (suc n)) ≡ true =
            subst (λ j. is_posted (answer j) ≡ true) same s in
          rw same (deliver_from-posted left (suc n) now)
  deliver_from-delivered (suc k) (suc (suc left)) n m h e (p, q, f) s w =
      rw
        (
          deliver_from-failed left n p q (omega (arith, le_mul_pow (backoff * 2 ^ n) (suc k))),
          deliver_from-delivered k (suc left) (suc n) m (omega arith) (omega arith) f s
              (rw (doubled backoff n, mul_pow (backoff * 2 ^ n) k) w),
          doubled backoff n,
        )
        refl

  deliver_from-gave_up :
      (left n m : ℕ)
      → m ≡ suc n + left
      → AllFail answer quits (suc n) left
      → is_posted (answer m) ≡ false
      → backoff * 2 ^ n * 2 ^ left < 2 ^ 63
      → deliver_from answer quits backoff (suc left) (suc n)
        ≡ record { outcome = gave_up; posts = m; waits = doubling (backoff * 2 ^ n) left }
  deliver_from-gave_up zero n m e f s w = last (omega arith)
    where
      last :
          m ≡ suc n
          → deliver_from answer quits backoff 1 (suc n)
            ≡ record { outcome = gave_up; posts = m; waits = [] }
      last same =
          let now : is_posted (answer (suc n)) ≡ false =
            subst (λ j. is_posted (answer j) ≡ false) same s in
          rw same (deliver_from-last (suc n) now)
  deliver_from-gave_up (suc left) n m e (p, q, f) s w =
      rw
        (
          deliver_from-failed left n p q (omega (arith, le_mul_pow (backoff * 2 ^ n) (suc left))),
          deliver_from-gave_up left (suc n) m (omega arith) f s
              (rw (doubled backoff n, mul_pow (backoff * 2 ^ n) left) w),
          doubled backoff n,
        )
        refl

module _ (cfg : WebhookConfig) (answer : ℕ → Result String ℕ) (quits : ℕ → Bool) where
  deliver-delivered :
      (k : ℕ)
      → k < attempts_of cfg.max_retries
      → AllFail answer quits 1 k
      → is_posted (answer (suc k)) ≡ true
      → backoff_of cfg.backoff_ms * 2 ^ k < 2 ^ 63
      → deliver cfg answer quits ≡ record {
        outcome = delivered;
        posts = suc k;
        waits = doubling (backoff_of cfg.backoff_ms) k;
      }
  unfolding deliver
  deliver-delivered k h f s w =
      let backoff = backoff_of cfg.backoff_ms in
      subst
        (λ wait.
          deliver_from answer quits backoff (attempts_of cfg.max_retries) 1
          ≡ record { outcome = delivered; posts = suc k; waits = doubling wait k })
        (once backoff)
        (deliver_from-delivered answer quits backoff k (attempts_of cfg.max_retries) 0 (suc k) h
          (omega arith) f s (rw once w))

  deliver-gave_up :
      (left : ℕ)
      → attempts_of cfg.max_retries ≡ suc left
      → AllFail answer quits 1 left
      → is_posted (answer (suc left)) ≡ false
      → backoff_of cfg.backoff_ms * 2 ^ left < 2 ^ 63
      → deliver cfg answer quits ≡ record {
        outcome = gave_up;
        posts = suc left;
        waits = doubling (backoff_of cfg.backoff_ms) left;
      }
  unfolding deliver
  deliver-gave_up left e f s w =
      let backoff = backoff_of cfg.backoff_ms in
      rw e (
        subst
          (λ wait.
            deliver_from answer quits backoff (suc left) 1
            ≡ record { outcome = gave_up; posts = suc left; waits = doubling wait left })
          (once backoff)
          (deliver_from-gave_up answer quits backoff left 0 (suc left) (omega arith) f s
            (rw once w)))

  -- how an attempt that is the last one made ends the delivery
  abbrev pub ended : ℕ → Outcome
  ended n = if is_posted (answer n) then delivered else gave_up

  -- If the first `k` attempts fail, attempt k + 1 succeeds or is the last that the retries allow, the
  -- gateway does not stop between, and the pauses stay below 2^63 nanoseconds, then the event is
  -- posted exactly k + 1 times, each pause is twice the one before, the first being the configured
  -- one, and it is delivered if that attempt succeeds and given up if not.
  pub deliver-attempts :
      (k : ℕ)
      → k < attempts_of cfg.max_retries
      → AllFail answer quits 1 k
      → (is_posted (answer (suc k)) ≡ true) ⊎ (attempts_of cfg.max_retries ≡ suc k)
      → backoff_of cfg.backoff_ms * 2 ^ k < 2 ^ 63
      → deliver cfg answer quits ≡ record {
        outcome = ended (suc k);
        posts = suc k;
        waits = doubling (backoff_of cfg.backoff_ms) k;
      }
  deliver-attempts k h f (inl s) w = rw s (deliver-delivered k h f s w)
  deliver-attempts k h f (inr e) w = elim (Bool-cases (is_posted (answer (suc k)))) [
    | inl s ↦ rw s (deliver-delivered k h f s w)
    | inr s ↦ rw s (deliver-gave_up k e f s w)
  ]
