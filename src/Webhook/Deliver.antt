-- ===== src/Webhook/Deliver.antt =====
-- The delivery of one event: deliver and post of internal/gateway/webhook.go.
use wa_gateway.Base.{
  ℕ, zero, suc, ◌-◌, ◌*◌, ◌%◌, ◌^◌, Bool, List, [], ◌∷◌, ℤ, pos, negsuc, pos_part, is_positive, ltb,
  eqb, if◌then◌else◌, add_ℕ, Result, ok, err, String, false,
}
use wa_gateway.Webhook.{WebhookConfig}

-- how a delivery ended: a POST succeeded, the attempts were used up, or the gateway stopped
pub data Outcome : Type 0 where
  delivered gave_up stopped : Outcome

pub record Delivery : Type 0 where
  pub outcome : Outcome
  -- how many times the event was posted, and the pauses between in nanoseconds
  pub posts : ℕ
  pub waits : List ℤ

-- an int64 from its bits
abbrev pub int64 : ℕ → ℤ
int64 n =
    let bits = n % 2 ^ 64 in if ltb bits (2 ^ 63) then pos bits else negsuc (2 ^ 64 - 1 - bits)

abbrev pub attempts_of : ℤ → ℕ
attempts_of retries = if is_positive (add_ℕ retries 1) then pos_part (add_ℕ retries 1) else 1

-- nanoseconds; a second where none is set
abbrev pub backoff_of : ℤ → ℕ
backoff_of ms = if is_positive ms then pos_part ms * 1000000 else 1000000000

-- backoff * time.Duration(1<<(attempt-1)), which wraps round
abbrev pub wait_after : ℕ → ℕ → ℤ
wait_after backoff attempt = int64 (backoff * 2 ^ (attempt - 1))

-- post: the answer of client.Do, the status code or an error
abbrev pub is_posted : Result String ℕ → Bool
is_posted (ok status) = ltb status 300
is_posted (err e) = false

module _ (answer : ℕ → Result String ℕ) (quits : ℕ → Bool) (backoff : ℕ) where
  -- the loop of deliver from attempt `n` on, `left` attempts being left; `quits n` says that the
  -- gateway stops during the pause after attempt `n`
  unfoldable pub deliver_from : ℕ → ℕ → Delivery
  deliver_from zero n = record { outcome = gave_up; posts = n - 1; waits = [] }
  deliver_from (suc left) n =
      let wait = wait_after backoff n in
      let rest = deliver_from left (suc n) in
      if is_posted (answer n)
      then record { outcome = delivered; posts = n; waits = [] }
      else if eqb left 0
      then record { outcome = gave_up; posts = n; waits = [] }
      else if quits n
      then record { outcome = stopped; posts = n; waits = [] }
      else record rest { waits = wait ∷ rest.waits }

unfoldable pub deliver : WebhookConfig → (ℕ → Result String ℕ) → (ℕ → Bool) → Delivery
deliver cfg answer quits =
    deliver_from answer quits (backoff_of cfg.backoff_ms) (attempts_of cfg.max_retries) 1
