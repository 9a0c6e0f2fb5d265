-- ===== src/Media/Examples.antt =====
-- The keys of media objects at concrete inputs.
use mathlib.Core.List.{List}
use wa_gateway.Base.{◌≡◌, refl, trim, after_prefix}
use wa_gateway.Media.{
  media_object_key, safe_segment, normalize_ext, ext_from_mime, before_semicolon,
}
use wa_gateway.Media.Keys.{IsObjectKey, media_object_key-IsObjectKey}

media_object_key-IsObjectKey_example :
    IsObjectKey "shop/../1" (media_object_key "shop/../1" "3EB0" "ogg")
media_object_key-IsObjectKey_example = media_object_key-IsObjectKey "shop/../1" "3EB0" "ogg"

media_object_key_test : media_object_key "shop/1" "3EB0" "ogg" ≡ "shop_1/3EB0.ogg"
unfolding media_object_key safe_segment normalize_ext after_prefix
media_object_key_test = refl

ext_from_mime_test : ext_from_mime (λ m. List.[]) "audio/ogg; codecs=opus" ≡ ".ogg"
unfolding ext_from_mime before_semicolon trim
ext_from_mime_test = refl
