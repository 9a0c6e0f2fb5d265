-- ===== src/Archive/Allowed.antt =====
-- Numbers in the lists of chatFilter (internal/gateway/storefilter.go) and the chats with them.
use Prim.Native.String
use Prim.Native.String.{[], ◌∷◌}
use text.Mathlib.TextLemmas.{cons-append, nil-append}
use mathlib.Core.List.{List}
use wa_gateway.Base.{
  String, Bool, true, false, ◌==◌, ◌++◌, ◌≡◌, refl, sym, arith, Option, none, some, Assoc, insert,
  lookup-insert, is_empty, trim, Result, ok, err, subst, Bool-cases, inl, inr, eq_refl, lookup-nil,
}
use wa_gateway.Phone.{PhoneError, normalize_phone}
use wa_gateway.Phone.International.{
  AllDigits, IsInternational, normalize_phone-IsInternational, normalize_phone_idempotent,
}
use wa_gateway.Archive.{ChatArchive, enabled}
use wa_gateway.Archive.Filter.{
  before_at, index_entry, index_number, index_parts, normalize_chat_set, new_filter, has, user_of,
  is_listed, allow_chat,
}

-- the address of a number at a server
abbrev pub address : String → String → String
address n server = String.◌++◌ n ("@" ∷ server)

before_at-address : (n server : String) → AllDigits n → before_at (address n server) ≡ some n
unfolding before_at
before_at-address [] server h = rw (nil-append) refl
before_at-address (c ∷ n) server (d, h) =
    rw (cons-append, before_at-address n server h) (ground (arith, d))

has-insert : (k j : String) (m : Assoc Bool) → has m k ≡ true → has (insert j true m) k ≡ true
has-insert k j m h = rw (lookup-insert) (ground (arith, h))

has-index_number :
    (r : Result PhoneError String) (e k : String) (m : Assoc Bool)
    → has m k ≡ true
    → has (index_number r e m) k ≡ true
has-index_number (ok n) e k m h = has-insert k n m h
has-index_number (err x) e k m h = has-insert k e m h

has-index_parts :
    (o : Option String) (e country k : String) (m : Assoc Bool)
    → has m k ≡ true
    → has (index_parts o e country m) k ≡ true
has-index_parts none e country k m h = has-index_number (normalize_phone e country) e k m h
has-index_parts (some user) e country k m h =
    has-insert k user (insert e true m) (has-insert k e m h)

has-index_entry :
    (country e k : String) (m : Assoc Bool)
    → has m k ≡ true
    → has (index_entry country e m) k ≡ true
unfolding index_entry
has-index_entry country e k m h = elim (Bool-cases (e == "")) [
  | inl q ↦ rw q h
  | inr q ↦ rw q (has-index_parts (before_at e) e country k m h)
]

has-normalize_chat_set :
    (country k : String) (list : List String) (m : Assoc Bool)
    → has m k ≡ true
    → has (normalize_chat_set country list m) k ≡ true
unfolding normalize_chat_set
has-normalize_chat_set country k List.[] m h = h
has-normalize_chat_set country k (List.◌∷◌ e list) m h =
    has-normalize_chat_set country k list _ (has-index_entry country (trim e) k m h)

index_entry-number :
    (country e n : String) (m : Assoc Bool)
    → (e == "") ≡ false
    → before_at e ≡ none
    → normalize_phone e country ≡ ok n
    → has (index_entry country e m) n ≡ true
unfolding index_entry
index_entry-number country e n m full plain h = rw (full, plain, h, lookup-insert, eq_refl n) refl

-- a list has an entry that stands for a number
pub record Lists (country n : String) (list : List String) : Type 0 where
  pub front : List String
  pub entry : String
  pub back : List String
  pub parts : list ≡ front ++ List.◌∷◌ entry back
  pub nonempty : (trim entry == "") ≡ false
  pub plain : before_at (trim entry) ≡ none
  pub number : normalize_phone (trim entry) country ≡ ok n

normalize_chat_set-has :
    (country n : String) (front : List String) (e : String) (back : List String) (m : Assoc Bool)
    → (trim e == "") ≡ false
    → before_at (trim e) ≡ none
    → normalize_phone (trim e) country ≡ ok n
    → has (normalize_chat_set country (front ++ List.◌∷◌ e back) m) n ≡ true
unfolding normalize_chat_set
normalize_chat_set-has country n List.[] e back m full plain h =
    has-normalize_chat_set country n back _ (index_entry-number country (trim e) n m full plain h)
normalize_chat_set-has country n (List.◌∷◌ x front) e back m full plain h =
    normalize_chat_set-has country n front e back (index_entry country (trim x) m) full plain h

user_of-address :
    (country n server : String) → IsInternational n → user_of country (address n server) ≡ n
unfolding user_of
user_of-address country n server h =
    rw (before_at-address n server h.digits, normalize_phone_idempotent n country h) refl

nonempty_of_has : (m : Assoc Bool) (k : String) → has m k ≡ true → is_empty m ≡ false
nonempty_of_has List.[] k h = absurd (ground (arith, lookup-nil {V = Bool} k, h))
nonempty_of_has (List.◌∷◌ x m) k h = refl

module _ (country n server session : String) (digits : AllDigits country) (a : ChatArchive)
    (chats exclude : List String) where
  listed-IsInternational : (list : List String) → Lists country n list → IsInternational n
  listed-IsInternational list l =
      normalize_phone-IsInternational (trim l.entry) country n digits l.number

  has-listed :
      (list : List String)
      → Lists country n list
      → has (normalize_chat_set country list List.[]) n ≡ true
  has-listed list l =
      subst (λ (x : List String). has (normalize_chat_set country x List.[]) n ≡ true) (sym l.parts)
        (normalize_chat_set-has country n l.front l.entry l.back List.[] l.nonempty l.plain
          l.number)

  is_listed-listed :
      (list : List String)
      → Lists country n list
      → is_listed
          (normalize_chat_set country list List.[])
          (address n server)
          (user_of country (address n server))
        ≡ true
  is_listed-listed list l =
      rw (user_of-address country n server (listed-IsInternational list l), has-listed list l)
        (ground arith)

  -- With global storage on and a country code of digits: if the list of chats to store has a
  -- number, in any form that normalises to n, the chat with the address of n is stored.
  pub allow_chat_listed :
      Lists country n chats
      → allow_chat (new_filter chats exclude country true) a session (address n server) ≡ true
  unfolding allow_chat
  allow_chat_listed l =
      rw (nonempty_of_has _ n (has-listed chats l), is_listed-listed chats l) (ground arith)

  -- With global storage on, no list of chats to store and a country code of digits: if the list of
  -- excluded chats has a number, in any form that normalises to n, the chat with the address of n
  -- is not stored, unless it is enabled in the archive.
  pub allow_chat_excluded :
      Lists country n exclude
      → chats ≡ List.[]
      → enabled session (address n server) a ≡ false
      → allow_chat (new_filter chats exclude country true) a session (address n server) ≡ false
  unfolding allow_chat normalize_chat_set
  allow_chat_excluded l none_allowed out =
      rw (out, none_allowed, nonempty_of_has _ n (has-listed exclude l), is_listed-listed exclude l)
        refl
