-- ===== src/Sessions/Phones.antt =====
-- Pairing by phone, and what a session asks of WhatsApp: PairPhone, CheckPhones, ListGroups and
-- ResolveLIDs (internal/gateway/session.go).
use wa_gateway.Base.{
  ℕ, String, Bool, true, false, not, ◌&&◌, ◌||◌, ◌==◌, List, [], ◌∷◌, Option, none, some,
  if◌then◌else◌, Result, ok, err, ◌>>=◌, Assoc, lookup, insert, trim, has_suffix, filter_if, length,
  map,
}
use wa_gateway.WhatsApp.{JidTypes}
use wa_gateway.Phone.Recipient.{JidError, parse_jid}
use wa_gateway.Groups.{GroupParticipant}

pub data PhoneCallError : Type 0 where
  already_logged_in not_logged_in : PhoneCallError
  bad_phone : JidError → PhoneCallError
  connect_failed call_failed : String → PhoneCallError

pub record PhoneCheckResult : Type 0 where
  pub phone : String
  pub jid : String
  pub lid : String
  pub is_on_whatsapp : Bool
  pub is_business : Bool
  pub business_name : String

pub record GroupSummary : Type 0 where
  pub jid : String
  pub name : String
  pub participants : ℕ
  pub is_announce : Bool

abbrev as_phone {ℓ} : {A : Type ℓ} → Result JidError A → Result PhoneCallError A
as_phone (ok a) = ok a
as_phone (err e) = err (bad_phone e)

abbrev as_call {ℓ} : {A : Type ℓ} → Result String A → Result PhoneCallError A
as_call (ok a) = ok a
as_call (err e) = err (call_failed e)

module _ (types : JidTypes) where
  open types use {Jid, user, server, to_string, parse, default_user_server, hidden_user_server}

  abbrev connected : Bool → Result String (Unit {0}) → Result PhoneCallError (Unit {0})
  connected true answer = ok tt
  connected false (ok t) = ok tt
  connected false (err e) = err (connect_failed e)

  -- PairPhone; `connect` answers where the client is not connected yet
  unfoldable pub pair_phone :
      String
      → Bool
      → Bool
      → Result String (Unit {0})
      → (String → Result String String)
      → String
      → Result PhoneCallError String
  pair_phone country logged_in is_connected connect pair phone =
      if logged_in
      then err already_logged_in
      else as_phone (parse_jid types phone country) >>= λ j.
          connected is_connected connect >>= λ t. as_call (pair (user j))

  -- types.IsOnWhatsAppResponse; an empty PhoneNumber or VerifiedName is `none`
  pub record OnWhatsApp : Type 0 where
    pub jid : Jid
    pub phone_number : Option Jid
    pub is_in : Bool
    pub verified_name : Option String

  -- the first loop of CheckPhones: the numbers with a plus, and the map back to the input
  unfoldable pub normalize_phones :
      String → List String → Assoc String → Result PhoneCallError (List String × Assoc String)
  normalize_phones country [] known = ok ([], known)
  normalize_phones country (p ∷ phones) known = as_phone (parse_jid types p country) >>= λ j.
      normalize_phones country phones (insert (user j) p known) >>= λ rest.
      ok (String.◌∷◌ "+" (user j) ∷ rest.0, rest.1)

  abbrev number_of : OnWhatsApp → Option Jid
  number_of r = elim r.phone_number [
    | some pn ↦ some pn
    | none ↦ if server r.jid == default_user_server then some r.jid else none
  ]

  abbrev user_or_empty : Option Jid → String
  user_or_empty none = ""
  user_or_empty (some j) = user j

  abbrev or_empty : Option String → String
  or_empty none = ""
  or_empty (some s) = s

  abbrev known_or : Option String → String → String
  known_or none other = other
  known_or (some p) other = p

  abbrev phone_shown : Assoc String → OnWhatsApp → String
  phone_shown known r =
      let pn = number_of r in
      let phone =
        known_or (lookup (user_or_empty pn) known) (or_empty (lookup (user r.jid) known)) in
      if phone == "" then user_or_empty pn else phone

  abbrev is_given {ℓ} : {A : Type ℓ} → Option A → Bool
  is_given none = false
  is_given (some a) = true

  abbrev text_or : String → Option Jid → String
  text_or other none = other
  text_or other (some j) = to_string j

  -- the second loop of CheckPhones
  abbrev pub checked : Assoc String → OnWhatsApp → PhoneCheckResult
  checked known r =
      let is_hidden = server r.jid == hidden_user_server in
      record {
        phone = phone_shown known r;
        jid = if is_hidden then text_or (to_string r.jid) (number_of r) else to_string r.jid;
        lid = if is_hidden then to_string r.jid else "";
        is_on_whatsapp = r.is_in;
        is_business = is_given r.verified_name;
        business_name = or_empty r.verified_name;
      }

  -- CheckPhones
  unfoldable pub check_phones :
      String
      → Bool
      → (List String → Result String (List OnWhatsApp))
      → List String
      → Result PhoneCallError (List PhoneCheckResult)
  check_phones country logged_in ask phones =
      if not logged_in
      then err not_logged_in
      else normalize_phones country phones [] >>= λ n.
          as_call (ask n.0) >>= λ replies. ok (map (checked n.1) replies)

  -- types.GroupInfo, as ListGroups reads it
  pub record JoinedGroup : Type 0 where
    pub jid : Jid
    pub name : String
    pub participants : List (GroupParticipant types)
    pub is_announce : Bool

  abbrev pub is_member : String → List (GroupParticipant types) → Bool
  is_member want [] = false
  is_member want (p ∷ participants) =
      user_or_empty p.phone_number == want
      || (server p.jid == default_user_server && user p.jid == want)
      || is_member want participants

  abbrev pub summary : JoinedGroup → GroupSummary
  summary g = record {
    jid = to_string g.jid;
    name = g.name;
    participants = length g.participants;
    is_announce = g.is_announce;
  }

  abbrev wanted_user : String → String → Result PhoneCallError String
  wanted_user country member =
      if trim member == ""
      then ok ""
      else as_phone (parse_jid types member country) >>= λ j. ok (user j)

  -- ListGroups
  unfoldable pub list_groups :
      String
      → Bool
      → Result String (List JoinedGroup)
      → String
      → Result PhoneCallError (List GroupSummary)
  list_groups country logged_in joined member =
      if not logged_in
      then err not_logged_in
      else wanted_user country member >>= λ want. as_call joined >>= λ groups.
          ok (map summary (filter_if (λ g. want == "" || is_member want g.participants) groups))

  abbrev number_text : (Jid → Option Jid) → Option Jid → Option String
  number_text pn_for none = none
  number_text pn_for (some j) = elim (pn_for j) [ none ↦ none | some pn ↦ some (to_string pn) ]

  abbrev put_number : String → Option String → Assoc String → Assoc String
  put_number raw none out = out
  put_number raw (some pn) out = insert raw pn out

  -- the loop of ResolveLIDs; `pn_for` is GetPNForLID, `none` where it fails or is empty
  unfoldable pub resolve_lids : (Jid → Option Jid) → List String → Assoc String → Assoc String
  resolve_lids pn_for [] out = out
  resolve_lids pn_for (lid ∷ lids) out =
      let raw = trim lid in
      resolve_lids pn_for lids
        (if has_suffix raw "@lid" then put_number raw (number_text pn_for (parse raw)) out else out)
