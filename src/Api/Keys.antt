-- ===== src/Api/Keys.antt =====
-- The handlers of the managed keys (internal/api/server.go): handleCreateKey to handleDeleteKey, but
-- for the list. Of an error's reply the status is kept; a body is `none` where it is no JSON.
use wa_gateway.Base.{ℕ, String, Bool, Option, none, some, Result, ok, err}
use wa_gateway.Keys.{KeyError, key_not_found, ApiKey}
use wa_gateway.Keys.Store.{KeyStore, DbAnswers, get}
use wa_gateway.Keys.Manage.{CreateOptions, UpdateOptions, create, update, rotate, delete}
use wa_gateway.Api.Sessions.{Reply, replied, refused}

-- writeKeyError
abbrev pub key_error_status : KeyError → ℕ
key_error_status key_not_found = 404
key_error_status _ = 500

abbrev pub key_reply {ℓ} : {A : Type ℓ} → Result KeyError A → Reply A
key_reply (ok a) = replied 200 a
key_reply (err e) = refused (key_error_status e)

abbrev created_reply : Result KeyError ApiKey → Reply ApiKey
created_reply (ok key) = replied 201 key
created_reply (err e) = refused 500

-- only Enabled is set
abbrev pub enabling : Bool → UpdateOptions
enabling on = record {
  name = none;
  scopes = none;
  rate_limit = none;
  rate_window_sec = none;
  max_sessions = none;
  enabled = some on;
  expires_at = none;
}

module _ (db : DbAnswers) (s : KeyStore) where
  -- handleGetKey
  abbrev pub handle_get_key : String → Reply ApiKey
  handle_get_key id = key_reply (get id s)

  -- handleUpdateKey
  unfoldable pub handle_update_key : String → Option UpdateOptions → Reply ApiKey × KeyStore
  handle_update_key id none = (refused 400, s)
  handle_update_key id (some patch) =
      let (next, result) = update db id patch s in (key_reply result, next)

  -- handleEnableKey and handleDisableKey
  unfoldable pub handle_enable_key : Bool → String → Reply ApiKey × KeyStore
  handle_enable_key on id =
      let (next, result) = update db id (enabling on) s in (key_reply result, next)

  -- handleDeleteKey
  unfoldable pub handle_delete_key : String → Reply (Unit {0}) × KeyStore
  handle_delete_key id = let (next, result) = delete db id s in (key_reply result, next)

  -- the random source and SHA-256 as in Keys/Manage
  module _ (hash_secret : String → String) (random : Option String) where
    -- handleRotateKey
    unfoldable pub handle_rotate_key : String → Reply ApiKey × KeyStore
    handle_rotate_key id =
        let (next, result) = rotate hash_secret db random id s in (key_reply result, next)

    -- handleCreateKey; an empty body counts as no options
    unfoldable pub handle_create_key : String → ℕ → Option CreateOptions → Reply ApiKey × KeyStore
    handle_create_key id now none = (refused 400, s)
    handle_create_key id now (some opts) =
        let (next, result) = create hash_secret db random id now opts s in
        (created_reply result, next)
