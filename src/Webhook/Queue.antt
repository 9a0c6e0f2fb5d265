-- ===== src/Webhook/Queue.antt =====
-- The queue between the events and the workers: newWebhookNotifier, the sends of enqueue and
-- enqueueReceipt, and the receives of worker (internal/gateway/webhook.go).
use wa_gateway.Base.{
  ℕ, List, [], ◌∷◌, ◌++◌, Option, none, some, ℤ, pos, pos_part, ltb_ℤ, ltb, if◌then◌else◌, length,
}
use wa_gateway.Webhook.{Envelope}

-- the channel's capacity
abbrev pub capacity : ℤ → ℕ
capacity size = if ltb_ℤ size (pos 1) then 1 else pos_part size

-- the channel, and what the workers have received, the first first
pub record Notifier : Type 0 where
  pub size : ℕ
  pub queue : List Envelope
  pub received : List Envelope

unfoldable pub new_notifier : ℤ → Notifier
new_notifier size = record { size = capacity size; queue = []; received = [] }

-- a send that does not wait: a full queue drops the event
unfoldable pub offer : Option Envelope → Notifier → Notifier
offer none n = n
offer (some body) n =
    if ltb (length n.queue) n.size then record n { queue = n.queue ++ body ∷ [] } else n

abbrev pub received_from : List Envelope → Notifier → Notifier
received_from [] n = n
received_from (body ∷ queue) n = record n { queue = queue; received = n.received ++ body ∷ [] }

-- the receive of a worker; one that finds the queue empty waits
unfoldable pub receive : Notifier → Notifier
receive n = received_from n.queue n

-- an event's send, or a worker's receive
pub data QueueStep : Type 0 where
  offered : Option Envelope → QueueStep
  worker_ready : QueueStep

unfoldable pub run_queue : List QueueStep → Notifier → Notifier
run_queue [] n = n
run_queue (offered body ∷ steps) n = run_queue steps (offer body n)
run_queue (worker_ready ∷ steps) n = run_queue steps (receive n)
