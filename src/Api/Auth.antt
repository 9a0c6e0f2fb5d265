-- ===== src/Api/Auth.antt =====
-- Who is let in: the theorems on the gate `auth` of internal/api/server.go.
use wa_gateway.Base.{
  subst, sym, ℕ, ◌≤◌, String, true, false, Option, none, some, ◌≡◌, ◌⊎◌, inl, inr, refl, ap, ◌∙◌,
  arith, lookup, is_empty, Assoc, [], ◌∷◌, is_positive, pos_part, Bool-cases, Option-cases, ◌==◌,
}
use wa_gateway.Keys.{
  ApiKey, KeyError, KeyState, AuthReply, RateResult, admit, is_expired, has_scope, roll,
}
use wa_gateway.Keys.Store.{KeyStore}
use wa_gateway.Keys.Auth.{
  authenticate, authenticate_any, master_identity, auth_required, matches_master,
}
use wa_gateway.Keys.Secrets.{authenticate_found}
use wa_gateway.Api.{
  Request, Clock, Served, extract_secret, auth, settle_reply, limited, granted, entry, panicked,
}

-- Whom a key that is let in belongs to: the master key's holder, or that of a cached key which is
-- enabled and has not expired.
pub data IsHolder (hash_secret : String → String) (now : ℕ) (secret : String) (keys : KeyStore)
    (k : ApiKey) : Type 0 where
  holds_master :
      matches_master keys secret ≡ true
      → k ≡ master_identity
      → IsHolder hash_secret now secret keys k
  holds_key :
      (st : KeyState)
      → lookup (hash_secret secret) keys.cache ≡ some st
      → st.key ≡ k
      → k.enabled ≡ true
      → is_expired k now ≡ false
      → IsHolder hash_secret now secret keys k

admit_key :
    (now : ℕ) (st : KeyState) (k : ApiKey)
    → (admit now st).1.key ≡ some k
    → (st.key ≡ k) × (k.enabled ≡ true) × (is_expired k now ≡ false)
unfolding admit
admit_key now st k e = ground arith

granted_ran :
    (scope : String) (next : ApiKey → ℕ) (r : Request) (clock : Clock) (rr : RateResult)
    (key : Option ApiKey) (k : ApiKey)
    → (granted scope next r clock rr key).ran ≡ some k
    → (key ≡ some k)
      × (has_scope k scope ≡ true)
      × ((granted scope next r clock rr key).logged ≡ some (entry r clock k.id k.name (next k)))
unfolding granted
granted_ran scope next r clock rr none k e = ground arith
granted_ran scope next r clock rr (some key) k e = ground arith

authenticate_any-IsHolder :
    (hash_secret : String → String) (now : ℕ) (secret : String) (keys : KeyStore) (k : ApiKey)
    → (authenticate_any hash_secret now secret keys).1.key ≡ some k
    → IsHolder hash_secret now secret keys k
unfolding authenticate_any authenticate
authenticate_any-IsHolder hash_secret now secret keys k e =
    elim (Bool-cases (matches_master keys secret)) [
      | inl m ↦ holds_master m (ground arith)
      | inr m ↦ elim (Option-cases (lookup (hash_secret secret) keys.cache)) [
        | inl n ↦ absurd (ground arith)
        | inr (st, f) ↦
            let (same, on, live) = admit_key now st k (ground arith) in holds_key st f same on live
      ]
    ]

limited_ran :
    (r : Request) (clock : Clock) (rr : RateResult) (key : Option ApiKey)
    → (limited r clock rr key).ran ≡ none
unfolding limited
limited_ran r clock rr none = refl
limited_ran r clock rr (some key) = refl

-- a key that is let in, with the scope, under which the handler runs and is logged
abbrev Ran : String → (ApiKey → ℕ) → Request → Clock → Option ApiKey → ApiKey → Served → Type 0
Ran scope next r clock key k served =
    (key ≡ some k)
    × (has_scope k scope ≡ true)
    × (served.logged ≡ some (entry r clock k.id k.name (next k)))

settle_reply_granted :
    (scope : String) (next : ApiKey → ℕ) (r : Request) (clock : Clock) (reply : AuthReply)
    → reply.error ≡ none
    → reply.rate.allowed ≡ true
    → settle_reply scope next r clock reply ≡ granted scope next r clock reply.rate reply.key
unfolding settle_reply
settle_reply_granted scope next r clock reply fine a = rw (fine, a) refl

settle_reply_limited :
    (scope : String) (next : ApiKey → ℕ) (r : Request) (clock : Clock) (reply : AuthReply)
    → reply.error ≡ none
    → reply.rate.allowed ≡ false
    → settle_reply scope next r clock reply ≡ limited r clock reply.rate reply.key
unfolding settle_reply
settle_reply_limited scope next r clock reply fine a = rw (fine, a) refl

settle_reply_refused :
    (scope : String) (next : ApiKey → ℕ) (r : Request) (clock : Clock) (reply : AuthReply)
    {e : KeyError}
    → reply.error ≡ some e
    → (settle_reply scope next r clock reply).ran ≡ none
unfolding settle_reply
settle_reply_refused scope next r clock reply f = rw (f) refl

settle_reply_ran :
    (scope : String) (next : ApiKey → ℕ) (r : Request) (clock : Clock) (reply : AuthReply)
    (k : ApiKey)
    → (settle_reply scope next r clock reply).ran ≡ some k
    → Ran scope next r clock reply.key k (settle_reply scope next r clock reply)
settle_reply_ran scope next r clock reply k e = elim (Option-cases reply.error) [
  | inr (x, f) ↦ absurd (ground (arith, settle_reply_refused scope next r clock reply f, e))
  | inl n ↦ elim (Bool-cases reply.rate.allowed) [
    | inl a ↦
        let same = settle_reply_granted scope next r clock reply n a in
        subst (Ran scope next r clock reply.key k) (sym same) (
          granted_ran scope next r clock reply.rate reply.key k
            (ap (λ (x : Served). x.ran) (sym same) ∙ e))
    | inr a ↦
        let denied =
          ap (λ (x : Served). x.ran) (settle_reply_limited scope next r clock reply n a) in
        absurd (ground (arith, limited_ran r clock reply.rate reply.key, denied, e))
  ]
]

-- If the wrapped handler ran under an identity, then either no authentication is set up and the
-- identity is the master's, or it has the route's scope, it is the master key's or that of an
-- enabled and unexpired key in the cache under the hash of the request's secret, and one
-- access-log entry has its id and the handler's status.
pub auth_ran :
    (hash_secret : String → String) (scope : String) (next : ApiKey → ℕ) (r : Request)
    (clock : Clock) (keys : KeyStore) (k : ApiKey)
    → (auth hash_secret scope next r clock keys).1.ran ≡ some k
    → ((auth_required keys ≡ false) × (k ≡ master_identity))
      ⊎ ((auth_required keys ≡ true)
          × (has_scope k scope ≡ true)
          × IsHolder hash_secret clock.now (extract_secret r) keys k
          × ((auth hash_secret scope next r clock keys).1.logged
              ≡ some (entry r clock k.id k.name (next k))))
unfolding auth
auth_ran hash_secret scope next r clock keys k e = elim (Bool-cases (auth_required keys)) [
  | inr off ↦ inl (off, ground arith)
  | inl on ↦ elim (Bool-cases (extract_secret r == "")) [
    | inl q ↦ absurd (ground arith)
    | inr q ↦
        let found = authenticate_any hash_secret clock.now (extract_secret r) keys in
        let (same, may, log) = settle_reply_ran scope next r clock found.1 k (rw (on, q) at e) in
        inr (
          on,
          may,
          authenticate_any-IsHolder hash_secret clock.now (extract_secret r) keys k same,
          rw (on, q) log,
        )
  ]
]

lookup-nonempty :
    (h : String) (cache : Assoc KeyState) (st : KeyState)
    → lookup h cache ≡ some st
    → is_empty cache ≡ false
unfolding lookup
lookup-nonempty h [] st e = ground arith
lookup-nonempty h (x ∷ cache) st e = refl

lookup-auth_required :
    (h : String) (keys : KeyStore) (st : KeyState)
    → lookup h keys.cache ≡ some st
    → auth_required keys ≡ true
lookup-auth_required h keys st e = rw (lookup-nonempty h keys.cache st e) (ground arith)

admit_full :
    (now : ℕ) (st : KeyState)
    → st.key.enabled ≡ true
    → is_expired st.key now ≡ false
    → is_positive st.key.rate_limit ≡ true
    → pos_part st.key.rate_limit ≤ (roll now st).win_count
    → ((admit now st).1.error ≡ none)
      × ((admit now st).1.rate.allowed ≡ false)
      × ((admit now st).1.key ≡ none)
unfolding admit
admit_full now st on live lim full = ground arith

settle_reply_denied :
    (scope : String) (next : ApiKey → ℕ) (r : Request) (clock : Clock) (reply : AuthReply)
    → reply.error ≡ none
    → reply.rate.allowed ≡ false
    → reply.key ≡ none
    → settle_reply scope next r clock reply ≡ panicked
unfolding settle_reply limited
settle_reply_denied scope next r clock reply fine denied key = rw (fine, denied, key) refl

authenticate_any-managed :
    (hash_secret : String → String) (now : ℕ) (secret : String) (keys : KeyStore) (st : KeyState)
    → matches_master keys secret ≡ false
    → lookup (hash_secret secret) keys.cache ≡ some st
    → (authenticate_any hash_secret now secret keys).1 ≡ (admit now st).1
unfolding authenticate_any
authenticate_any-managed hash_secret now secret keys st managed found =
    rw (managed) (authenticate_found hash_secret now secret keys st found)

-- A request with the secret of an enabled, unexpired managed key whose window is used up ends in a
-- panic: the gate reads the key that Authenticate does not return, so the handler does not run and
-- the access log gets no entry for the status 429.
pub auth_over_limit :
    (hash_secret : String → String) (scope : String) (next : ApiKey → ℕ) (r : Request)
    (clock : Clock) (keys : KeyStore) (st : KeyState)
    → (extract_secret r == "") ≡ false
    → matches_master keys (extract_secret r) ≡ false
    → lookup (hash_secret (extract_secret r)) keys.cache ≡ some st
    → st.key.enabled ≡ true
    → is_expired st.key clock.now ≡ false
    → is_positive st.key.rate_limit ≡ true
    → pos_part st.key.rate_limit ≤ (roll clock.now st).win_count
    → (auth hash_secret scope next r clock keys).1 ≡ panicked
unfolding auth
auth_over_limit hash_secret scope next r clock keys st given managed found on live lim full =
    let (fine, denied, key) = admit_full clock.now st on live lim full in
    rw (lookup-auth_required (hash_secret (extract_secret r)) keys st found, given)
      (ap (settle_reply scope next r clock)
          (authenticate_any-managed hash_secret clock.now (extract_secret r) keys st managed found)
        ∙ settle_reply_denied scope next r clock (admit clock.now st).1 fine denied key)
