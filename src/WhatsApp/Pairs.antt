-- ===== src/WhatsApp/Pairs.antt =====
-- An instance of the interface to whatsmeow's addresses, for the theorems' examples.
use Prim.Native.String
use wa_gateway.Base.{String, refl, none, some, has_suffix, trim_suffix, if◌then◌else◌}
use wa_gateway.WhatsApp.{JidTypes}

-- addresses as pairs of a user and a server
abbrev pub pair_types : JidTypes
pair_types = record {
  Jid = String × String;
  user = λ j. j.0;
  server = λ j. j.1;
  new_jid = λ u s. (u, s);
  parse = λ s. if has_suffix s "@g.us" then some (trim_suffix s "@g.us", "g.us") else none;
  to_string = λ j. String.◌++◌ j.0 (String.◌++◌ "@" j.1);
  default_user_server = "s.whatsapp.net";
  hidden_user_server = "lid";
  group_server = "g.us";
  user-new_jid = λ u s. refl;
  server-new_jid = λ u s. refl;
}
