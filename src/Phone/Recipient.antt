-- ===== src/Phone/Recipient.antt =====
-- parseJID (internal/gateway/session.go) and parseGroupJID (internal/gateway/group.go).
use wa_gateway.Base.{
  String, Bool, false, ◌||◌, ◌==◌, ◌≡◌, refl, subst, trim, has_suffix, trim_suffix, Option, none,
  some, inl, inr, Bool-cases, Result, ok, err, if◌then◌else◌,
}
use wa_gateway.WhatsApp.{JidTypes}
use wa_gateway.Phone.{PhoneError, normalize_phone}
use wa_gateway.Phone.International.{AllDigits, IsInternational, normalize_phone-IsInternational}

pub data JidError : Type 0 where
  recipient_empty invalid_jid not_a_group : JidError
  bad_phone : PhoneError → JidError

-- the four suffixes of a recipient that is a JID already
unfoldable pub is_jid_text : String → Bool
is_jid_text s =
    has_suffix s "@g.us"
    || has_suffix s "@s.whatsapp.net"
    || has_suffix s "@newsletter"
    || has_suffix s "@lid"

module _ (types : JidTypes) where
  open types use {Jid, user, server, new_jid, parse, default_user_server}
  open types use {user-new_jid, server-new_jid}

  abbrev pub parsed : Option Jid → Result JidError Jid
  parsed none = err invalid_jid
  parsed (some j) = ok j

  abbrev pub numbered : Result PhoneError String → Result JidError Jid
  numbered (err e) = err (bad_phone e)
  numbered (ok number) = ok (new_jid number default_user_server)

  unfoldable pub parse_jid : String → String → Result JidError Jid
  parse_jid raw default_cc =
      let t = trim raw in
      if t == ""
      then err recipient_empty
      else if is_jid_text t
      then parsed (parse t)
      else numbered
          (normalize_phone (if has_suffix t "@c.us" then trim_suffix t "@c.us" else t) default_cc)

  unfoldable pub parse_group_jid : String → Result JidError Jid
  parse_group_jid raw =
      let t = trim raw in if has_suffix t "@g.us" then parsed (parse t) else err not_a_group

  abbrev pub IsUserJid : Jid → Type 0
  IsUserJid j = (server j ≡ default_user_server) × IsInternational (user j)

  abbrev Ensured : Result JidError Jid → Type 0
  Ensured (err e) = Unit
  Ensured (ok j) = IsUserJid j

  Ensured-numbered :
      (r : Result PhoneError String)
      → ((n : String) → r ≡ ok n → IsInternational n)
      → Ensured (numbered r)
  Ensured-numbered (err e) h = tt
  Ensured-numbered (ok n) h = (server-new_jid n default_user_server, rw user-new_jid (h n refl))

  Ensured-parse_jid :
      (raw country : String)
      → AllDigits country
      → is_jid_text (trim raw) ≡ false
      → Ensured (parse_jid raw country)
  unfolding parse_jid
  Ensured-parse_jid raw country h e = elim (Bool-cases (trim raw == "")) [
    | inl p ↦ rw p tt
    | inr p ↦ rw (p, e) (Ensured-numbered _ λ n. normalize_phone-IsInternational _ country n h)
  ]

  -- If the default country code has digits only, a recipient that does not end like a JID and is
  -- accepted is an address at the server of users, with an international number.
  pub parse_jid-IsUserJid :
      (raw country : String) (j : Jid)
      → AllDigits country
      → is_jid_text (trim raw) ≡ false
      → parse_jid raw country ≡ ok j
      → IsUserJid j
  parse_jid-IsUserJid raw country j h e p = subst Ensured p (Ensured-parse_jid raw country h e)
