-- ===== src/Keys.antt =====
-- Managed API keys: internal/gateway/apikey.go. The data, the tests on one key and the admission
-- of one request; times are seconds since 1970, so they stay far below 2^63.
pub mod Examples
pub mod Window
pub mod Store
pub mod Manage
pub mod Auth
pub mod Reloaded
pub mod Secrets
pub mod Revoked
pub mod Scopes
use wa_gateway.Base.{
  ℕ, suc, ◌+◌, ◌-◌, String, Bool, true, false, not, ◌&&◌, ◌||◌, ◌==◌, List, [], ◌∷◌, Option, none,
  some, ℤ, pos, pos_part, is_positive, leb, eqb, if◌then◌else◌,
}

pub data KeyError : Type 0 where
  key_not_found key_invalid key_disabled key_expired : KeyError
  -- the random source or the database failed
  no_secret database_failed : KeyError

pub record ApiKey : Type 0 where
  pub id : String
  pub name : String
  pub prefix : String
  pub scopes : List String
  pub rate_limit : ℤ
  pub rate_window_sec : ℤ
  pub max_sessions : ℤ
  pub enabled : Bool
  pub expires_at : ℤ
  pub created_at : ℕ
  pub last_used_at : ℕ
  pub request_count : ℕ
  pub secret : String
  pub master : Bool

abbrev pub scope_all : String
scope_all = "*"

-- the loop of HasScope
abbrev pub grants : String → List String → Bool
grants scope [] = false
grants scope (s ∷ rest) = s == scope_all || s == scope || grants scope rest

unfoldable pub has_scope : ApiKey → String → Bool
has_scope k scope = if scope == "" then true else grants scope k.scopes

abbrev pub is_expired : ApiKey → ℕ → Bool
is_expired k now = is_positive k.expires_at && leb (pos_part k.expires_at) now

pub record KeyState : Type 0 where
  pub key : ApiKey
  pub win_start : ℕ
  pub win_count : ℕ
  pub usage_delta : ℕ
  pub last_used : ℕ

pub record RateResult : Type 0 where
  pub limit : ℤ
  pub remaining : ℕ
  pub reset_at : ℕ
  pub allowed : Bool

-- The three results of Authenticate.
pub record AuthReply : Type 0 where
  pub key : Option ApiKey
  pub rate : RateResult
  pub error : Option KeyError

abbrev pub no_rate : RateResult
no_rate = record { limit = pos 0; remaining = 0; reset_at = 0; allowed = false }

abbrev pub refused : KeyError → AuthReply
refused e = record { key = none; rate = no_rate; error = some e }

-- `win`, with 60 seconds in place of a length that is not positive
abbrev pub window : ApiKey → ℕ
window k = if is_positive k.rate_window_sec then pos_part k.rate_window_sec else 60

-- A window that has not begun or has run out begins anew.
abbrev pub roll : ℕ → KeyState → KeyState
roll now st =
    if eqb st.win_start 0 || leb (window st.key) (now - st.win_start)
    then record st { win_start = now; win_count = 0 }
    else st

abbrev pub count_use : ℕ → KeyState → KeyState
count_use now st = record st { usage_delta = suc st.usage_delta; last_used = now }

-- the branch `RateLimit > 0`, after the window is settled
abbrev pub admit_limited : ℕ → KeyState → KeyState × AuthReply
admit_limited now st =
    let limit = pos_part st.key.rate_limit in
    let reset = st.win_start + window st.key in
    if leb limit st.win_count
    then (
      st,
      record {
        key = none;
        rate = record {
          limit = st.key.rate_limit;
          remaining = 0;
          reset_at = reset;
          allowed = false;
        };
        error = none;
      },
    )
    else (
      count_use now (record st { win_count = suc st.win_count }),
      record {
        key = some st.key;
        rate = record {
          limit = st.key.rate_limit;
          remaining = limit - suc st.win_count;
          reset_at = reset;
          allowed = true;
        };
        error = none;
      },
    )

-- Authenticate, from the state that the hash was found at.
unfoldable pub admit : ℕ → KeyState → KeyState × AuthReply
admit now st =
    if not st.key.enabled
    then (st, refused key_disabled)
    else if is_expired st.key now
    then (st, refused key_expired)
    else if is_positive st.key.rate_limit
    then admit_limited now (roll now st)
    else (
      count_use now st,
      record {
        key = some st.key;
        rate = record { limit = st.key.rate_limit; remaining = 0; reset_at = 0; allowed = true };
        error = none;
      },
    )
