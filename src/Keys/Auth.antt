-- ===== src/Keys/Auth.antt =====
-- Authentication against the store (internal/gateway/apikey.go) and the manager's, which tries the
-- master key first (internal/gateway/manager.go); the flush of usage counts to the database.
use wa_gateway.Base.{
  ℕ, ◌+◌, String, Bool, true, not, ◌&&◌, ◌||◌, ◌==◌, List, [], ◌∷◌, none, some, pos, ltb,
  if◌then◌else◌, Assoc, lookup, insert,
}
use wa_gateway.Keys.{ApiKey, KeyState, AuthReply, key_invalid, refused, admit, scope_all}
use wa_gateway.Keys.Store.{KeyRow, KeyStore, has_keys}

unfoldable pub authenticate : (String → String) → ℕ → String → KeyStore → KeyStore × AuthReply
authenticate hash_secret now raw_secret s = elim (lookup (hash_secret raw_secret) s.cache) [
  | none ↦ (s, refused key_invalid)
  | some st ↦ (
    record s { cache = insert (hash_secret raw_secret) (admit now st).0 s.cache },
    (admit now st).1,
  )
]

abbrev pub master_identity : ApiKey
master_identity = record {
  id = "master";
  name = "master (env API_KEY)";
  prefix = "";
  scopes = scope_all ∷ [];
  rate_limit = pos 0;
  rate_window_sec = pos 0;
  max_sessions = pos 0;
  enabled = true;
  expires_at = pos 0;
  created_at = 0;
  last_used_at = 0;
  request_count = 0;
  secret = "";
  master = true;
}

-- ConstantTimeMatchMaster
abbrev pub matches_master : KeyStore → String → Bool
matches_master s raw_secret = not (s.master_key == "") && raw_secret == s.master_key

-- Manager.Authenticate
unfoldable pub authenticate_any : (String → String) → ℕ → String → KeyStore → KeyStore × AuthReply
authenticate_any hash_secret now raw_secret s =
    if matches_master s raw_secret
    then (
      s,
      record {
        key = some master_identity;
        rate = record { limit = pos 0; remaining = 0; reset_at = 0; allowed = true };
        error = none;
      },
    )
    else authenticate hash_secret now raw_secret s

-- Manager.AuthRequired
abbrev pub auth_required : KeyStore → Bool
auth_required s = not (s.master_key == "") || has_keys s

-- an entry of `updates`
pub record Usage : Type 0 where
  pub id : String
  pub delta : ℕ
  pub last_used : ℕ

-- the loop of `flush` under the lock: what is taken from each state, and what stays
unfoldable pub usages : Assoc KeyState → List Usage
usages [] = []
usages ((h, st) ∷ cache) =
    let rest = usages cache in
    if ltb 0 st.usage_delta
    then record { id = st.key.id; delta = st.usage_delta; last_used = st.last_used } ∷ rest
    else rest

abbrev pub settled : KeyState → KeyState
settled st =
    if ltb 0 st.usage_delta
    then record st {
      key = record st.key {
        last_used_at =
            if ltb st.key.last_used_at st.last_used then st.last_used else st.key.last_used_at;
        request_count = st.key.request_count + st.usage_delta;
      };
      usage_delta = 0;
    }
    else st

unfoldable pub settle : Assoc KeyState → Assoc KeyState
settle [] = []
settle ((h, st) ∷ cache) = (h, settled st) ∷ settle cache

-- the UPDATE for one key
abbrev pub add_usage : Usage → KeyRow → KeyRow
add_usage u r =
    if r.id == u.id
    then record r { last_used_at = u.last_used; request_count = r.request_count + u.delta }
    else r

abbrev pub add_usages_row : List Usage → KeyRow → KeyRow
add_usages_row [] r = r
add_usages_row (u ∷ us) r = add_usages_row us (add_usage u r)

-- the UPDATEs, each of which the database may refuse
unfoldable pub accepted : (String → Bool) → List Usage → List Usage
accepted writes [] = []
accepted writes (u ∷ us) = let rest = accepted writes us in if writes u.id then u ∷ rest else rest

unfoldable pub add_usages : List Usage → List KeyRow → List KeyRow
add_usages us [] = []
add_usages us (r ∷ rows) = add_usages_row us r ∷ add_usages us rows

unfoldable pub flush : (String → Bool) → KeyStore → KeyStore
flush writes s = record s {
  rows = add_usages (accepted writes (usages s.cache)) s.rows;
  cache = settle s.cache;
}
