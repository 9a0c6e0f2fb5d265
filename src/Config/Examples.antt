-- ===== src/Config/Examples.antt =====
-- Runs of Load (internal/config/config.go).
use wa_gateway.Base.{
  String, false, ◌==◌, ◌≡◌, refl, [], ◌∷◌, Option, none, some, pos, negsuc, if◌then◌else◌,
  split_comma, trim, trim_left, trim_right, is_space,
}
use wa_gateway.Api.Params.{parse_int, digits_value}
use wa_gateway.Config.{load_config, split_list}

abbrev environment : String → Option String
environment key =
    if key == "WEBHOOK_WORKERS"
    then some "-2"
    else if key == "BULK_MIN_DELAY_MS"
    then some "soon"
    else if key == "STORE_CHATS"
    then some " a, ,b"
    else if key == "DOWNLOAD_MEDIA"
    then some "F"
    else none

loaded :
    ((load_config environment).webhook_workers ≡ negsuc 1)
    × ((load_config environment).bulk_min_delay_ms ≡ pos 3000)
    × ((load_config environment).store_chats ≡ "a" ∷ "b" ∷ [])
    × ((load_config environment).download_media ≡ false)
    × ((load_config environment).webhook_events ≡ "message" ∷ [])
unfolding load_config parse_int digits_value split_list split_comma trim trim_left trim_right
    is_space
loaded = (refl, refl, refl, refl, refl)
