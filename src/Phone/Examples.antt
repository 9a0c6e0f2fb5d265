-- ===== src/Phone/Examples.antt =====
-- The theorems on phone numbers and recipients at concrete inputs.
use wa_gateway.Base.{◌≡◌, refl, arith, ne_of_test, ok, trim, byte_len, has_suffix}
use wa_gateway.WhatsApp.Pairs.{pair_types}
use wa_gateway.Phone.{normalize_phone, digits_only}
use wa_gateway.Phone.International.{
  IsInternational, normalize_phone-IsInternational, normalize_phone_idempotent,
  normalize_phone_local,
}
use wa_gateway.Phone.Recipient.{IsUserJid, is_jid_text, parse_jid, parse_jid-IsUserJid}

normalize_phone-IsInternational_example : IsInternational "62812345678"
unfolding normalize_phone digits_only trim byte_len
normalize_phone-IsInternational_example =
    normalize_phone-IsInternational " 0812-345-678 " "62" "62812345678" (refl, (refl, tt)) refl

number-IsInternational : IsInternational "62812345"
unfolding byte_len
number-IsInternational = record {
  digits = (refl, (refl, (refl, (refl, (refl, (refl, (refl, (refl, tt))))))));
  no_trunk = refl;
  long = omega arith;
}

normalize_phone_idempotent_example : normalize_phone "62812345" "1" ≡ ok "62812345"
normalize_phone_idempotent_example =
    normalize_phone_idempotent "62812345" "1" number-IsInternational

normalize_phone_local_example : normalize_phone "0812345" "62" ≡ normalize_phone "62812345" "62"
normalize_phone_local_example =
    normalize_phone_local "62" "812345" (refl, (refl, tt)) (ne_of_test "62" "" refl) refl
      (refl, (refl, (refl, (refl, (refl, (refl, tt))))))

parse_jid-IsUserJid_example : IsUserJid pair_types ("62812345", "s.whatsapp.net")
unfolding parse_jid normalize_phone digits_only trim byte_len is_jid_text has_suffix
parse_jid-IsUserJid_example =
    parse_jid-IsUserJid pair_types "0812345" "62" ("62812345", "s.whatsapp.net") (refl, (refl, tt))
      refl refl
