-- ===== src/Webhook/Examples.antt =====
-- The theorems on the webhook at concrete inputs.
use wa_gateway.Base.{
  ◌≡◌, ◌≤◌, ◌++◌, refl, inl, [], ◌∷◌, pos, ok, err, false, some, ℕ, Result, String, length, List,
  arith, if◌then◌else◌, eqb, Bool,
}
use wa_gateway.Messages.{delivered}
use wa_gateway.Webhook.{Envelope, receipt_event, WebhookConfig}
use wa_gateway.Webhook.Queue.{QueueStep, offered, worker_ready, new_notifier, run_queue, capacity}
use wa_gateway.Webhook.Order.{accepted, run_queue-order}
use wa_gateway.Webhook.Deliver.{deliver}
use wa_gateway.Webhook.Retries.{deliver-attempts, ended, doubling}

abbrev check_mark : String → Envelope
check_mark id = receipt_event "default" (record {
  chat = "62812345678@s.whatsapp.net";
  sender = "62812345678@s.whatsapp.net";
  message_ids = id ∷ [];
  status = delivered;
  timestamp = 1700000000;
  is_group = false;
  from_me = false;
})

abbrev full_queue : List QueueStep
full_queue =
    offered (some (check_mark "A"))
    ∷ offered (some (check_mark "B"))
    ∷ worker_ready
    ∷ offered (some (check_mark "C"))
    ∷ []

run_queue-order_example :
    ((run_queue full_queue (new_notifier (pos 1))).received
        ++ (run_queue full_queue (new_notifier (pos 1))).queue
      ≡ accepted full_queue (new_notifier (pos 1)))
    × (length (run_queue full_queue (new_notifier (pos 1))).queue ≤ capacity (pos 1))
    × (1 ≤ capacity (pos 1))
run_queue-order_example = run_queue-order (pos 1) full_queue

abbrev three_retries : WebhookConfig
three_retries = record {
  url = "http://10.0.0.1/hook";
  events = "*" ∷ [];
  download_media = false;
  max_download_byte = pos 0;
  queue_size = pos 1;
  max_retries = pos 2;
  backoff_ms = pos 2000;
}

abbrev second_time : ℕ → Result String ℕ
second_time n = if eqb n 2 then ok 204 else err "connection refused"

abbrev running : ℕ → Bool
running n = false

deliver-attempts_example : deliver three_retries second_time running ≡ record {
  outcome = ended three_retries second_time running 2;
  posts = 2;
  waits = doubling 2000000000 1;
}
deliver-attempts_example =
    deliver-attempts three_retries second_time running 1 (omega arith) (refl, refl, tt) (inl refl)
      (omega arith)
