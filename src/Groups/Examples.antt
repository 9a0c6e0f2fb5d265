-- ===== src/Groups/Examples.antt =====
-- The theorems on groups at concrete inputs.
use wa_gateway.Base.{
  String, ◌≡◌, ◌≤◌, refl, [], ◌∷◌, ok, err, true, false, some, none, pos, All, length, List, trim,
  byte_len, has_suffix, insert, lookup,
}
use wa_gateway.WhatsApp.Pairs.{pair_types}
use wa_gateway.Phone.{normalize_phone, digits_only}
use wa_gateway.Phone.Recipient.{JidError, parse_jid, is_jid_text}
use wa_gateway.Groups.{CallError}
use wa_gateway.Groups.Status.{
  invited, failed, status_list, list_from, find_status, find_phone, adjust, participant_error_text,
}
use wa_gateway.Groups.Cooldown.{
  GroupLimits, GroupClock, check_group_cooldown, group_create_allowed_at,
}
use wa_gateway.Groups.Participants.{
  resolve, resolve_from, apply_result, apply_each, settle, apply_participant_results,
}
use wa_gateway.Groups.Paced.{AddAnswers, add_participants_paced}
use wa_gateway.Groups.Runes.{rune_len}
use wa_gateway.Groups.Create.{CreateGroupInput, CreateGroupResult, CreateAnswers, create_group}
use wa_gateway.Groups.Listed.{AllDecided}
use wa_gateway.Groups.Decided.{create_group-AllDecided}
use wa_gateway.Groups.Batches.{concat, add_participants_paced-concat}
use wa_gateway.Groups.Spaced.{
  is_refused, is_set, check_group_cooldown-allowed_at, IsSpaced, asked_times-IsSpaced,
}
use wa_gateway.Groups.Asked.{GroupCreation, asked_times}

abbrev flood : CallError
flood = record { is_rate_limit = false; message = "timed out" }

abbrev failing : AddAnswers pair_types
failing = record { update = λ n. err flood; is_cancelled = λ n. false }

abbrev six_numbers : List (String × String)
six_numbers =
    ("621", "s.whatsapp.net")
    ∷ ("622", "s.whatsapp.net")
    ∷ ("623", "s.whatsapp.net")
    ∷ ("624", "s.whatsapp.net")
    ∷ ("625", "s.whatsapp.net")
    ∷ ("626", "s.whatsapp.net")
    ∷ []

add_participants_paced-concat_example :
    (concat (add_participants_paced pair_types failing six_numbers []).0 ≡ six_numbers)
    × All (λ batch. length batch ≤ 5) (add_participants_paced pair_types failing six_numbers []).0
add_participants_paced-concat_example =
    add_participants_paced-concat pair_types failing (λ n. refl) (λ n. refl) six_numbers []

abbrev two_days : GroupLimits
two_days = record { quiet_hours = pos 48; cooldown_hours = pos 24 }

abbrev paired_once : GroupClock
paired_once = record { paired_at = some 1000; last_group_create = none }

check_group_cooldown-allowed_at_example :
    is_refused (check_group_cooldown two_days 5000 paired_once)
    ≡ is_set (group_create_allowed_at two_days 5000 paired_once)
check_group_cooldown-allowed_at_example = check_group_cooldown-allowed_at two_days 5000 paired_once

abbrev unlimited_quiet : GroupLimits
unlimited_quiet = record { quiet_hours = pos 0; cooldown_hours = pos 1 }

abbrev answered : CreateAnswers pair_types
answered = record {
  logged_in = true;
  create = λ request. ok (record {
    jid = ("12036", "g.us");
    participants =
        record {
          jid = ("62812345678", "s.whatsapp.net");
          phone_number = none;
          is_admin = false;
          is_super_admin = false;
          error = 403;
          add_request = some "K7";
        }
        ∷ [];
  });
  add = failing;
  invite_link = λ j. err flood;
}

abbrev class_group : CreateGroupInput
class_group = record {
  name = " Class ";
  topic = "";
  participants = "0812-345-678" ∷ "x" ∷ [];
  announce = false;
  is_locked = false;
}

abbrev describe : JidError → String
describe e = "invalid phone number"

abbrev class_result : CreateGroupResult
class_result = record {
  jid = "12036@g.us";
  name = "Class";
  invite_link = "";
  participants =
      record {
        phone = "0812-345-678";
        jid = "62812345678@s.whatsapp.net";
        status = invited;
        code = 403;
        error = "privacy settings prevent direct add; invite required";
        invite_code = "K7";
      }
      ∷ record {
        phone = "x";
        jid = "";
        status = failed;
        code = 0;
        error = "invalid phone number";
        invite_code = "";
      }
      ∷ [];
}

create_group-AllDecided_example : AllDecided class_result.participants
unfolding create_group resolve resolve_from parse_jid normalize_phone digits_only trim byte_len
    is_jid_text has_suffix rune_len check_group_cooldown apply_participant_results apply_each settle
    apply_result adjust status_list list_from find_status find_phone insert lookup
    participant_error_text
create_group-AllDecided_example =
    create_group-AllDecided pair_types answered class_group describe "62" two_days 200000000000000
      paired_once class_result (λ n. refl) refl

abbrev three_calls : List (GroupCreation pair_types)
three_calls =
    (5, answered, class_group)
    ∷ (9, answered, class_group)
    ∷ (4000000000000, answered, class_group)
    ∷ []

two_asked :
    asked_times pair_types describe "62" unlimited_quiet three_calls paired_once
    ≡ 5 ∷ 4000000000000 ∷ []
unfolding asked_times create_group resolve resolve_from parse_jid normalize_phone digits_only trim
    byte_len is_jid_text has_suffix rune_len check_group_cooldown insert lookup
two_asked = refl

asked_times-IsSpaced_example :
    IsSpaced 3600000000000 none
      (asked_times pair_types describe "62" unlimited_quiet three_calls paired_once)
asked_times-IsSpaced_example =
    asked_times-IsSpaced pair_types describe "62" unlimited_quiet three_calls paired_once refl
