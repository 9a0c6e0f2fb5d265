-- ===== src/Archive/Filter.antt =====
-- chatFilter of internal/gateway/storefilter.go: which chats are stored.
use Prim.Native.Char.{Char, code}
use Prim.Native.String.{[], ◌∷◌}
use mathlib.Core.List.{List}
use wa_gateway.Base.{
  String, Bool, true, false, not, ◌||◌, ◌==◌, Option, none, some, eqb, if◌then◌else◌, Assoc, lookup,
  insert, is_empty, trim, Result, ok, err,
}
use wa_gateway.Phone.{PhoneError, normalize_phone}
use wa_gateway.Archive.{ChatArchive, enabled, or_false}

pub record ChatFilter : Type 0 where
  pub allow : Assoc Bool
  pub deny : Assoc Bool
  pub cc : String
  pub global : Bool

abbrev pub put_before : Char → Option String → Option String
put_before c none = none
put_before c (some front) = some (c ∷ front)

-- the text before the first "@", if there is one
unfoldable pub before_at : String → Option String
before_at [] = none
before_at (c ∷ s) = let rest = before_at s in if eqb (code c) 64 then some "" else put_before c rest

-- a bare number, as it is indexed
abbrev pub index_number : Result PhoneError String → String → Assoc Bool → Assoc Bool
index_number (ok n) e m = insert n true m
index_number (err x) e m = insert e true m

abbrev pub index_parts : Option String → String → String → Assoc Bool → Assoc Bool
index_parts (some user) e country m = insert user true (insert e true m)
index_parts none e country m = index_number (normalize_phone e country) e m

-- the body of the loop of normalizeChatSet, for an entry without space at its ends
unfoldable pub index_entry : String → String → Assoc Bool → Assoc Bool
index_entry country e m = if e == "" then m else index_parts (before_at e) e country m

unfoldable pub normalize_chat_set : String → List String → Assoc Bool → Assoc Bool
normalize_chat_set country List.[] m = m
normalize_chat_set country (List.◌∷◌ e list) m =
    normalize_chat_set country list (index_entry country (trim e) m)

-- newChatFilter
abbrev pub new_filter : List String → List String → String → Bool → ChatFilter
new_filter chats exclude country global = record {
  allow = normalize_chat_set country chats List.[];
  deny = normalize_chat_set country exclude List.[];
  cc = country;
  global = global;
}

abbrev pub has : Assoc Bool → String → Bool
has m k = or_false (lookup k m)

abbrev pub or_text : Option String → String → String
or_text none s = s
or_text (some user) s = user

abbrev pub number_or : Result PhoneError String → String → String
number_or (ok n) user = n
number_or (err x) user = user

-- the part of a JID before "@", as a number if it is one
unfoldable pub user_of : String → String → String
user_of country chat =
    let user = or_text (before_at chat) chat in number_or (normalize_phone user country) user

abbrev pub is_listed : Assoc Bool → String → String → Bool
is_listed m full user = has m full || has m user

unfoldable pub allow_chat : ChatFilter → ChatArchive → String → String → Bool
allow_chat f a session chat =
    if enabled session chat a
    then true
    else if not f.global
    then false
    else if not (is_empty f.allow)
    then is_listed f.allow chat (user_of f.cc chat)
    else if not (is_empty f.deny)
    then not (is_listed f.deny chat (user_of f.cc chat))
    else true
