-- ===== src/Keys/Manage.antt =====
-- Create, Rotate, Update and Delete of internal/gateway/apikey.go.
-- `hash_secret` is the hexadecimal SHA-256; the random source is an argument, and so is whether
-- each statement to the database goes through.
use wa_gateway.Base.{
  ℕ, String, Bool, true, false, not, ◌&&◌, ◌||◌, ◌==◌, List, [], ◌∷◌, ◌++◌, Option, none, some, ℤ,
  is_positive, pos_part, neg_part, eqb, if◌then◌else◌, Result, ok, err,
}
use Prim.Native.String
use wa_gateway.Base.Bytes.{take_text}
use wa_gateway.Keys.{KeyError, key_not_found, no_secret, database_failed, ApiKey, scope_all}
use wa_gateway.Keys.Scopes.{join_scopes}
use wa_gateway.Keys.Store.{KeyRow, KeyStore, DbAnswers, reload, get}

-- KeyCreateOptions
pub record CreateOptions : Type 0 where
  pub name : String
  pub scopes : List String
  pub rate_limit : ℤ
  pub rate_window_sec : ℤ
  pub max_sessions : ℤ
  pub expires_at : ℤ

-- KeyUpdateOptions; `none` is a nil pointer
pub record UpdateOptions : Type 0 where
  pub name : Option String
  pub scopes : Option (List String)
  pub rate_limit : Option ℤ
  pub rate_window_sec : Option ℤ
  pub max_sessions : Option ℤ
  pub enabled : Option Bool
  pub expires_at : Option ℤ

-- The UNIQUE constraints of the table.
abbrev pub id_taken : String → List KeyRow → Bool
id_taken id [] = false
id_taken id (r ∷ rows) = r.id == id || id_taken id rows

abbrev pub hash_taken : String → List KeyRow → Bool
hash_taken hash [] = false
hash_taken hash (r ∷ rows) = r.key_hash == hash || hash_taken hash rows

-- UPDATE gw_api_keys SET … WHERE id = ?
abbrev pub update_row : (KeyRow → KeyRow) → String → List KeyRow → List KeyRow
update_row f id [] = []
update_row f id (r ∷ rows) = (if r.id == id then f r else r) ∷ update_row f id rows

-- DELETE FROM gw_api_keys WHERE id = ?
abbrev pub delete_row : String → List KeyRow → List KeyRow
delete_row id [] = []
delete_row id (r ∷ rows) = let rest = delete_row id rows in if r.id == id then rest else r ∷ rest

-- what follows a statement that went through: reload, then the answer from the new cache
abbrev pub reloaded :
    DbAnswers → (KeyStore → Result KeyError ApiKey) → KeyStore → KeyStore × Result KeyError ApiKey
reloaded db answer s =
    let (s', r) = reload db s in (s', elim r [ ok u ↦ answer s' | err e ↦ err e ])

abbrev pub secret_of : String → String
secret_of hex = String.◌++◌ "wag_" hex

-- the defaults of Create
abbrev pub or_default : ℤ → ℤ → ℤ
or_default v d = if eqb (pos_part v) 0 && eqb (neg_part v) 0 then d else v

abbrev pub or_scope_all : List String → List String
or_scope_all [] = scope_all ∷ []
or_scope_all (s ∷ scopes) = s ∷ scopes

abbrev pub with_secret : String → Result KeyError ApiKey → Result KeyError ApiKey
with_secret secret (ok k) = ok (record k { secret = secret })
with_secret secret (err e) = err e

abbrev or_kept {ℓ} : {A : Type ℓ} → Option A → A → A
or_kept none old = old
or_kept (some new) old = new

abbrev joined_or_kept : Option (List String) → String → String
joined_or_kept none old = old
joined_or_kept (some scopes) old = join_scopes scopes

abbrev enabled_or_kept : Option Bool → ℕ → ℕ
enabled_or_kept none old = old
enabled_or_kept (some b) old = if b then 1 else 0

-- the SET clauses that Update collects
abbrev pub patched : UpdateOptions → KeyRow → KeyRow
patched patch r = record r {
  name = or_kept patch.name r.name;
  scopes = joined_or_kept patch.scopes r.scopes;
  rate_limit = or_kept patch.rate_limit r.rate_limit;
  rate_window_sec = or_kept patch.rate_window_sec r.rate_window_sec;
  max_sessions = or_kept patch.max_sessions r.max_sessions;
  enabled = enabled_or_kept patch.enabled r.enabled;
  expires_at = or_kept patch.expires_at r.expires_at;
}

abbrev is_none {ℓ} : {A : Type ℓ} → Option A → Bool
is_none none = true
is_none (some a) = false

-- len(sets) == 0
abbrev pub is_idle : UpdateOptions → Bool
is_idle patch =
    is_none patch.name
    && is_none patch.scopes
    && is_none patch.rate_limit
    && is_none patch.rate_window_sec
    && is_none patch.max_sessions
    && is_none patch.enabled
    && is_none patch.expires_at

unfoldable pub update :
    DbAnswers → String → UpdateOptions → KeyStore → KeyStore × Result KeyError ApiKey
update db id patch s =
    if is_idle patch
    then (s, get id s)
    else if not db.exec_ok
    then (s, err database_failed)
    else if not (id_taken id s.rows)
    then (s, err key_not_found)
    else reloaded db (λ s'. get id s') (record s { rows = update_row (patched patch) id s.rows })

unfoldable pub delete : DbAnswers → String → KeyStore → KeyStore × Result KeyError (Unit {0})
delete db id s =
    if not db.exec_ok
    then (s, err database_failed)
    else if not (id_taken id s.rows)
    then (s, err key_not_found)
    else reload db (record s { rows = delete_row id s.rows })

module _ (hash_secret : String → String) where
  abbrev pub new_row : KeyStore → CreateOptions → String → String → ℕ → KeyRow
  new_row s opts id hex now = record {
    id = id;
    name = opts.name;
    key_hash = hash_secret (secret_of hex);
    prefix = take_text 12 (secret_of hex);
    scopes = join_scopes (or_scope_all opts.scopes);
    rate_limit = or_default opts.rate_limit s.def_rate_limit;
    rate_window_sec =
        if is_positive opts.rate_window_sec then opts.rate_window_sec else s.def_rate_window;
    max_sessions = or_default opts.max_sessions s.def_max_session;
    enabled = 1;
    expires_at = opts.expires_at;
    created_at = now;
    last_used_at = 0;
    request_count = 0;
  }

  -- the key that Create returns, with its secret
  abbrev pub created_key : KeyStore → CreateOptions → String → String → ℕ → ApiKey
  created_key s opts id hex now =
      let r = new_row s opts id hex now in
      record {
        id = r.id;
        name = r.name;
        prefix = r.prefix;
        scopes = or_scope_all opts.scopes;
        rate_limit = r.rate_limit;
        rate_window_sec = r.rate_window_sec;
        max_sessions = r.max_sessions;
        enabled = true;
        expires_at = r.expires_at;
        created_at = r.created_at;
        last_used_at = 0;
        request_count = 0;
        secret = secret_of hex;
        master = false;
      }

  -- `hex` is what the random source gives, if it does
  unfoldable pub create :
      DbAnswers
      → Option String
      → String
      → ℕ
      → CreateOptions
      → KeyStore
      → KeyStore × Result KeyError ApiKey
  create db none id now opts s = (s, err no_secret)
  create db (some hex) id now opts s =
      let row = new_row s opts id hex now in
      if not db.exec_ok || id_taken row.id s.rows || hash_taken row.key_hash s.rows
      then (s, err database_failed)
      else reloaded db (λ _. ok (created_key s opts id hex now))
          (record s { rows = s.rows ++ row ∷ [] })

  unfoldable pub rotate :
      DbAnswers → Option String → String → KeyStore → KeyStore × Result KeyError ApiKey
  rotate db none id s = (s, err no_secret)
  rotate db (some hex) id s =
      let hash = hash_secret (secret_of hex) in
      let change =
        λ (r : KeyRow). record r { key_hash = hash; prefix = take_text 12 (secret_of hex) } in
      if not db.exec_ok
      then (s, err database_failed)
      else if not (id_taken id s.rows)
      then (s, err key_not_found)
      else if hash_taken hash (delete_row id s.rows)
      then (s, err database_failed)
      else reloaded db (λ s'. with_secret (secret_of hex) (get id s'))
          (record s { rows = update_row change id s.rows })
