-- ===== src/Keys/Secrets.antt =====
-- The secret of a key that was created (internal/gateway/apikey.go).
use wa_gateway.Base.{
  ℕ, String, true, false, ◌&&◌, eq_refl, List, [], ◌∷◌, ◌++◌, none, some, ◌≡◌, refl, arith, ok,
  lookup, ap, is_positive, leb, pos_part,
}
use wa_gateway.Keys.{is_expired, ApiKey, KeyState, admit, key_invalid, refused}
use wa_gateway.Keys.Store.{KeyRow, KeyStore, DbAnswers, row_key, carried, reload_rows, reload}
use wa_gateway.Keys.Manage.{CreateOptions, create, new_row, secret_of, hash_taken}
use wa_gateway.Keys.Auth.{authenticate}
use wa_gateway.Keys.Reloaded.{last_hash, lookup-reload_rows}

last_hash-append :
    (h : String) (rows : List KeyRow) (r : KeyRow)
    → r.key_hash ≡ h
    → last_hash h (rows ++ r ∷ []) ≡ some r
unfolding last_hash
last_hash-append h [] r e = rw (e, eq_refl h) refl
last_hash-append h (q ∷ rows) r e = rw (last_hash-append h rows r e) refl

pub last_hash_of_fresh :
    (h : String) (rows : List KeyRow) → hash_taken h rows ≡ false → last_hash h rows ≡ none
unfolding last_hash
last_hash_of_fresh h [] e = refl
last_hash_of_fresh h (r ∷ rows) e = ground (arith, last_hash_of_fresh h rows)

-- The cache holds no hash that is not in the table.
pub record IsCoherent (s : KeyStore) : Type 0 where
  pub missing : (h : String) → last_hash h s.rows ≡ none → lookup h s.cache ≡ none

pub admit_first :
    (t : ℕ) (k : ApiKey)
    → k.enabled ≡ true
    → is_expired k t ≡ false
    → let reply = (admit t (carried none k)).1 in
      (reply.error ≡ none) × (reply.rate.allowed ≡ true) × (reply.key ≡ some k)
unfolding admit
admit_first t k on live = ground arith

module _ (hash_secret : String → String) where
  -- a state that authenticates with `raw` from the state `st`
  pub authenticate_found :
      (t : ℕ) (raw : String) (s : KeyStore) (st : KeyState)
      → lookup (hash_secret raw) s.cache ≡ some st
      → (authenticate hash_secret t raw s).1 ≡ (admit t st).1
  unfolding authenticate
  authenticate_found t raw s st e = rw (e, authenticate) refl

  pub authenticate_missing :
      (t : ℕ) (raw : String) (s : KeyStore)
      → lookup (hash_secret raw) s.cache ≡ none
      → authenticate hash_secret t raw s ≡ (s, refused key_invalid)
  unfolding authenticate
  authenticate_missing t raw s e = rw (e, authenticate) refl

  record Created (db : DbAnswers) (hex id : String) (now : ℕ) (opts : CreateOptions) (s : KeyStore)
      (k : ApiKey) : Type 0 where
    fresh : hash_taken (hash_secret (secret_of hex)) s.rows ≡ false
    expires : k.expires_at ≡ opts.expires_at
    secret : k.secret ≡ secret_of hex
    rows :
        (create hash_secret db (some hex) id now opts s).0.rows
        ≡ s.rows ++ new_row hash_secret s opts id hex now ∷ []
    cache :
        (create hash_secret db (some hex) id now opts s).0.cache
        ≡ reload_rows s.cache (s.rows ++ new_row hash_secret s opts id hex now ∷ []) []

  create-Created :
      (db : DbAnswers) (hex id : String) (now : ℕ) (opts : CreateOptions) (s : KeyStore)
      (k : ApiKey)
      → (create hash_secret db (some hex) id now opts s).1 ≡ ok k
      → Created db hex id now opts s k
  unfolding create reload
  create-Created db hex id now opts s k e = ground arith

  lookup-create :
      (db : DbAnswers) (hex id : String) (now : ℕ) (opts : CreateOptions) (s : KeyStore)
      (k : ApiKey)
      → IsCoherent s
      → Created db hex id now opts s k
      → lookup (hash_secret k.secret) (create hash_secret db (some hex) id now opts s).0.cache
        ≡ some (carried none (row_key (new_row hash_secret s opts id hex now)))
  lookup-create db hex id now opts s k c made =
      rw
        (
          made.cache,
          made.secret,
          lookup-reload_rows,
          last_hash-append (hash_secret (secret_of hex)) s.rows
              (new_row hash_secret s opts id hex now) refl,
        )
        (rw (c.missing _ (last_hash_of_fresh _ s.rows made.fresh)) refl)

  -- If no hash is cached that the table does not have, the secret that a successful Create, which
  -- no other call overlaps, returns authenticates at once and is let through, as the row that was
  -- written, at any time before the key expires.
  pub authenticate-create :
      (db : DbAnswers) (hex id : String) (now t : ℕ) (opts : CreateOptions) (s : KeyStore)
      (k : ApiKey)
      → IsCoherent s
      → (create hash_secret db (some hex) id now opts s).1 ≡ ok k
      → is_expired k t ≡ false
      → let reply =
          (authenticate hash_secret t k.secret
            (create hash_secret db (some hex) id now opts s).0).1 in
        (reply.error ≡ none)
        × (reply.rate.allowed ≡ true)
        × (reply.key ≡ some (row_key (new_row hash_secret s opts id hex now)))
  authenticate-create db hex id now t opts s k c e live =
      rw
        (authenticate_found t k.secret (create hash_secret db (some hex) id now opts s).0
          (carried none (row_key (new_row hash_secret s opts id hex now)))
          (lookup-create db hex id now opts s k c made))
        (admit_first t (row_key (new_row hash_secret s opts id hex now)) refl
          (rw (ap (λ x. is_positive x && leb (pos_part x) t) made.expires) at live))
    where
      made : Created db hex id now opts s k
      made = create-Created db hex id now opts s k e
