-- ===== src/Webhook/Order.antt =====
-- The order in which the workers receive the events of the queue (internal/gateway/webhook.go).
use mathlib.Core.List.{append_assoc, append-nil}
use wa_gateway.Base.{
  ◌≤◌, ◌≡◌, refl, ◌∙◌, sym, ap, arith, List, [], ◌∷◌, ◌++◌, Option, none, some, ℤ, ltb,
  if◌then◌else◌, length, length-append, Bool-cases, inl, inr,
}
use wa_gateway.Webhook.{Envelope}
use wa_gateway.Webhook.Queue.{
  Notifier, QueueStep, offered, worker_ready, capacity, new_notifier, offer, receive, received_from,
  run_queue,
}

-- the events that find room, in the order in which they are sent
unfoldable pub accepted : List QueueStep → Notifier → List Envelope
accepted [] n = []
accepted (offered none ∷ steps) n = accepted steps n
accepted (offered (some body) ∷ steps) n =
    let later = accepted steps (offer (some body) n) in
    if ltb (length n.queue) n.size then body ∷ later else later
accepted (worker_ready ∷ steps) n = accepted steps (receive n)

abbrev seen : Notifier → List Envelope
seen n = n.received ++ n.queue

seen-receive : (n : Notifier) → seen (receive n) ≡ seen n
unfolding receive
seen-receive n = go n.queue n
  where
    go :
        (queue : List Envelope) (m : Notifier)
        → seen (received_from queue (record m { queue = queue })) ≡ m.received ++ queue
    go [] m = refl
    go (body ∷ queue) m = append_assoc m.received (body ∷ []) queue

seen-offer :
    (body : Envelope) (n : Notifier) (later : List Envelope)
    → seen (offer (some body) n) ++ later
      ≡ seen n ++ (if ltb (length n.queue) n.size then body ∷ later else later)
unfolding offer
seen-offer body n later = elim (Bool-cases (ltb (length n.queue) n.size)) [
  | inl e ↦ rw e (
      ap (λ s. s ++ later) (sym (append_assoc n.received n.queue (body ∷ [])))
      ∙ append_assoc (n.received ++ n.queue) (body ∷ []) later)
  | inr e ↦ rw e refl
]

seen-run_queue :
    (steps : List QueueStep) (n : Notifier) → seen (run_queue steps n) ≡ seen n ++ accepted steps n
unfolding run_queue accepted offer
seen-run_queue [] n = sym (append-nil (seen n))
seen-run_queue (offered none ∷ steps) n = seen-run_queue steps n
seen-run_queue (offered (some body) ∷ steps) n =
    seen-run_queue steps (offer (some body) n)
    ∙ seen-offer body n (accepted steps (offer (some body) n))
seen-run_queue (worker_ready ∷ steps) n =
    seen-run_queue steps (receive n) ∙ ap (λ s. s ++ accepted steps (receive n)) (seen-receive n)

offer-fits :
    (body : Option Envelope) (n : Notifier)
    → length n.queue ≤ n.size
    → length (offer body n).queue ≤ (offer body n).size
unfolding offer
offer-fits none n h = h
offer-fits (some body) n h = elim (Bool-cases (ltb (length n.queue) n.size)) [
  | inl e ↦ rw e (ground (arith, length-append n.queue (body ∷ [])))
  | inr e ↦ rw e h
]

receive-fits :
    (n : Notifier) → length n.queue ≤ n.size → length (receive n).queue ≤ (receive n).size
unfolding receive
receive-fits n h = go n.queue n h
  where
    go :
        (queue : List Envelope) (m : Notifier)
        → length queue ≤ m.size
        → length (received_from queue (record m { queue = queue })).queue
          ≤ (received_from queue (record m { queue = queue })).size
    go [] m k = k
    go (body ∷ queue) m k = omega arith

run_queue-fits :
    (steps : List QueueStep) (n : Notifier)
    → length n.queue ≤ n.size
    → length (run_queue steps n).queue ≤ (run_queue steps n).size
unfolding run_queue
run_queue-fits [] n h = h
run_queue-fits (offered body ∷ steps) n h =
    run_queue-fits steps (offer body n) (offer-fits body n h)
run_queue-fits (worker_ready ∷ steps) n h = run_queue-fits steps (receive n) (receive-fits n h)

size-offer : (body : Option Envelope) (n : Notifier) → (offer body n).size ≡ n.size
unfolding offer
size-offer none n = refl
size-offer (some body) n = elim (Bool-cases (ltb (length n.queue) n.size)) [
  | inl e ↦ rw e refl
  | inr e ↦ rw e refl
]

size-receive : (n : Notifier) → (receive n).size ≡ n.size
unfolding receive
size-receive n = go n.queue
  where
    go : (queue : List Envelope) → (received_from queue n).size ≡ n.size
    go [] = refl
    go (body ∷ queue) = refl

size-run_queue : (steps : List QueueStep) (n : Notifier) → (run_queue steps n).size ≡ n.size
unfolding run_queue
size-run_queue [] n = refl
size-run_queue (offered body ∷ steps) n = size-run_queue steps (offer body n) ∙ size-offer body n
size-run_queue (worker_ready ∷ steps) n = size-run_queue steps (receive n) ∙ size-receive n

-- After any sequence of sends and receives the workers have received, each once, the events that
-- found room in the order in which they were sent, but for those still in the queue; the queue never
-- holds more than its capacity, which is at least 1.
pub run_queue-order :
    (size : ℤ) (steps : List QueueStep)
    → ((run_queue steps (new_notifier size)).received ++ (run_queue steps (new_notifier size)).queue
        ≡ accepted steps (new_notifier size))
      × (length (run_queue steps (new_notifier size)).queue ≤ capacity size)
      × (1 ≤ capacity size)
unfolding new_notifier
run_queue-order size steps = (
  seen-run_queue steps (new_notifier size),
  omega (
    arith,
    size-run_queue steps (new_notifier size),
    run_queue-fits steps (new_notifier size) (omega arith),
  ),
  ground arith,
)
