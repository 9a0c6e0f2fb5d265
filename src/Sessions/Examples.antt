-- ===== src/Sessions/Examples.antt =====
-- The theorem on what a session stores at concrete events.
use wa_gateway.Base.{Option, String, [], ◌∷◌, err, true, false, none, pos, List, Result}
use wa_gateway.WhatsApp.Pairs.{pair_types}
use wa_gateway.Webhook.{WebhookConfig, MessageInfo}
use wa_gateway.Webhook.Queue.{new_notifier}
use wa_gateway.Webhook.Content.{WaMessage, Content, message, nothing, no_context, MediaPart}
use wa_gateway.Sessions.Shared.{EventConfig, Shared}
use wa_gateway.Sessions.Stored.{
  StoreEvent, message_came, message_sent, handle_all, IsFiltered, IsFiltered-handle_all,
}

abbrev no_webhook : WebhookConfig
no_webhook = record {
  url = "";
  events = [];
  download_media = false;
  max_download_byte = pos 0;
  queue_size = pos 1;
  max_retries = pos 0;
  backoff_ms = pos 0;
}

abbrev stores_all : EventConfig
stores_all = record {
  webhook = no_webhook;
  filter = record { allow = []; deny = []; cc = "62"; global = true };
  store_messages = true;
  store_media = false;
  max_download_byte = pos 0;
}

abbrev empty_store : Shared
empty_store = record {
  messages = [];
  receipts = [];
  archive = record { rows = []; set = [] };
  notifier = new_notifier (pos 1);
}

abbrev greeting_content : Content
greeting_content = record {
  conversation = "Hello";
  extended_text = none;
  image = none;
  video = none;
  has_ptv = false;
  document = none;
  audio = none;
  sticker = none;
  contact = none;
  contacts_array = none;
  location = none;
  has_live_location = false;
  poll_v3 = none;
  poll = none;
  reaction = none;
  has_protocol = false;
  has_sender_key = false;
  group_invite = none;
}

abbrev greeting : WaMessage
greeting =
    message nothing nothing nothing nothing nothing greeting_content no_context no_context
      no_context no_context no_context no_context

abbrev from_customer : MessageInfo pair_types
from_customer = record {
  id = "3EB0";
  timestamp = 1700000000;
  chat = ("62812345678", "s.whatsapp.net");
  sender = ("62812345678", "s.whatsapp.net");
  sender_alt = none;
  push_name = "Ani";
  is_from_me = false;
  is_group = false;
}

abbrev no_download : MediaPart → Result String String
no_download m = err "gone"

abbrev no_storage : String → String → Option String
no_storage session id = none

abbrev two_events : List (String × StoreEvent pair_types (λ j. j) stores_all)
two_events =
    ("default", message_came no_download 1700000001 from_customer greeting)
    ∷ (
      "default",
      message_sent no_storage 1700000002 "62811@s.whatsapp.net" ("62812345678", "s.whatsapp.net")
          "3EB1" "text" "Hi" none,
    )
    ∷ []

IsFiltered-handle_all_example :
    IsFiltered pair_types
      (λ j. j)
      stores_all
      (handle_all pair_types (λ j. j) stores_all two_events empty_store)
IsFiltered-handle_all_example =
    IsFiltered-handle_all pair_types (λ j. j) stores_all two_events empty_store tt
