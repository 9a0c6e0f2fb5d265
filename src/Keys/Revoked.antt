-- ===== src/Keys/Revoked.antt =====
-- The secrets of deleted and rotated keys (internal/gateway/apikey.go).
use wa_gateway.Base.{
  ℕ, String, true, false, eq_iff, eq_refl, List, [], ◌∷◌, none, some, ◌≡◌, ◌≢◌, refl, arith, ok,
  All, lookup-nil, Option-cases, inl, inr, subst,
}
use wa_gateway.Base.Bytes.{take_text}
use wa_gateway.Keys.{ApiKey, key_invalid, refused}
use wa_gateway.Keys.Store.{KeyRow, KeyStore, DbAnswers, reload_rows, reload}
use wa_gateway.Keys.Manage.{rotate, secret_of, delete_row, update_row, delete, id_taken, hash_taken}
use wa_gateway.Keys.Auth.{authenticate}
use wa_gateway.Keys.Reloaded.{last_hash, lookup-reload_rows}
use wa_gateway.Keys.Secrets.{authenticate_missing}

-- The UNIQUE constraints hold of the table.
abbrev pub IsUnique : List KeyRow → Type 0
IsUnique [] = Unit
IsUnique (r ∷ rows) = All (λ q. (q.id ≢ r.id) × (q.key_hash ≢ r.key_hash)) rows × IsUnique rows

key_hash-last_hash :
    (h : String) (rows : List KeyRow) (r : KeyRow) → last_hash h rows ≡ some r → r.key_hash ≡ h
unfolding last_hash
key_hash-last_hash h [] r e = ground arith
key_hash-last_hash h (q ∷ rows) r e = elim (Option-cases (last_hash h rows)) [
  | inl n ↦ ground (arith, eq_iff q.key_hash h)
  | inr (p, f) ↦ ground (arith, key_hash-last_hash h rows p f)
]

module _ (P : KeyRow → Type 0) where
  All-last_hash :
      (h : String) (rows : List KeyRow) (r : KeyRow) → All P rows → last_hash h rows ≡ some r → P r
  unfolding last_hash
  All-last_hash h [] r a e = absurd (ground arith)
  All-last_hash h (q ∷ rows) r (p, ps) e = elim (Option-cases (last_hash h rows)) [
    | inl n ↦ let same : q ≡ r = ground arith in subst P same p
    | inr (x, f) ↦ All-last_hash h rows r ps (ground arith)
  ]

last_hash-delete_row_unknown :
    (h id : String) (rows : List KeyRow)
    → last_hash h rows ≡ none
    → last_hash h (delete_row id rows) ≡ none
unfolding last_hash
last_hash-delete_row_unknown h id [] e = refl
last_hash-delete_row_unknown h id (r ∷ rows) e =
    ground (arith, last_hash-delete_row_unknown h id rows)

-- the key of a row is the only one with its hash, so deleting it leaves the hash unknown
last_hash-delete_row :
    (h : String) (rows : List KeyRow) (r : KeyRow)
    → IsUnique rows
    → last_hash h rows ≡ some r
    → last_hash h (delete_row r.id rows) ≡ none
unfolding last_hash
last_hash-delete_row h [] r u e = ground arith
last_hash-delete_row h (q ∷ rows) r (alone, u) e = elim (Option-cases (last_hash h rows)) [
  | inl n ↦ ground (arith, eq_refl r.id, last_hash-delete_row_unknown h r.id rows n)
  | inr (x, f) ↦
      let same : x ≡ r = ground arith in
      let found : last_hash h rows ≡ some r = ground arith in
      ground (
        arith,
        last_hash-delete_row h rows r u found,
        key_hash-last_hash h rows r found,
        eq_iff q.key_hash h,
        (All-last_hash (λ x. (x.id ≢ q.id) × (x.key_hash ≢ q.key_hash)) h rows r alone found).1,
      )
]

delete-cache :
    (db : DbAnswers) (id : String) (s : KeyStore)
    → (delete db id s).1 ≡ ok tt
    → (delete db id s).0.cache ≡ reload_rows s.cache (delete_row id s.rows) []
unfolding delete reload
delete-cache db id s e = ground arith

-- In a table with unique ids and hashes: after a Delete that reports no error and that no other
-- call overlaps, the deleted key's secret is refused as invalid, and the attempt changes nothing.
pub authenticate-delete :
    (hash_secret : String → String) (db : DbAnswers) (s : KeyStore) (raw : String) (r : KeyRow)
    (t : ℕ)
    → IsUnique s.rows
    → last_hash (hash_secret raw) s.rows ≡ some r
    → (delete db r.id s).1 ≡ ok tt
    → authenticate hash_secret t raw (delete db r.id s).0
      ≡ ((delete db r.id s).0, refused key_invalid)
authenticate-delete hash_secret db s raw r t u e d =
    authenticate_missing hash_secret t raw (delete db r.id s).0 (
      rw
        (
          delete-cache db r.id s d,
          lookup-reload_rows,
          last_hash-delete_row (hash_secret raw) s.rows r u e,
        )
        (lookup-nil (hash_secret raw)))

-- the change that Rotate makes to a row
abbrev rotated : String → String → KeyRow → KeyRow
rotated hash hex r = record r { key_hash = hash; prefix = take_text 12 (secret_of hex) }

record Rotated (hash_secret : String → String) (db : DbAnswers) (hex id : String) (s : KeyStore)
    (k : ApiKey) : Type 0 where
  fresh : hash_taken (hash_secret (secret_of hex)) (delete_row id s.rows) ≡ false
  known : id_taken id s.rows ≡ true
  secret : k.secret ≡ secret_of hex
  cache :
      (rotate hash_secret db (some hex) id s).0.cache
      ≡ reload_rows s.cache (update_row (rotated (hash_secret (secret_of hex)) hex) id s.rows) []

rotate-Rotated :
    (hash_secret : String → String) (db : DbAnswers) (hex id : String) (s : KeyStore) (k : ApiKey)
    → (rotate hash_secret db (some hex) id s).1 ≡ ok k
    → Rotated hash_secret db hex id s k
unfolding rotate reload
rotate-Rotated hash_secret db hex id s k e = ground arith

last_hash-update_row_unknown :
    (h hash hex id : String) (rows : List KeyRow)
    → hash ≢ h
    → last_hash h rows ≡ none
    → last_hash h (update_row (rotated hash hex) id rows) ≡ none
unfolding last_hash
last_hash-update_row_unknown h hash hex id [] n e = refl
last_hash-update_row_unknown h hash hex id (r ∷ rows) n e =
    ground (arith, last_hash-update_row_unknown h hash hex id rows n, eq_iff hash h)

last_hash-update_row :
    (h hash hex : String) (rows : List KeyRow) (r : KeyRow)
    → IsUnique rows
    → hash ≢ h
    → last_hash h rows ≡ some r
    → last_hash h (update_row (rotated hash hex) r.id rows) ≡ none
unfolding last_hash
last_hash-update_row h hash hex [] r u n e = ground arith
last_hash-update_row h hash hex (q ∷ rows) r (alone, u) n e =
    elim (Option-cases (last_hash h rows)) [
      | inl m ↦ ground (
        arith,
        eq_refl r.id,
        eq_iff hash h,
        last_hash-update_row_unknown h hash hex r.id rows n m,
      )
      | inr (x, f) ↦
          let same : x ≡ r = ground arith in
          let found : last_hash h rows ≡ some r = ground arith in
          ground (
            arith,
            last_hash-update_row h hash hex rows r u n found,
            key_hash-last_hash h rows r found,
            eq_iff q.key_hash h,
            eq_iff hash h,
            (All-last_hash (λ x. (x.id ≢ q.id) × (x.key_hash ≢ q.key_hash)) h rows r alone found).1,
          )
    ]

-- In a table with unique ids and hashes: after a Rotate that reports no error and that no other
-- call overlaps, the key's old secret is refused as invalid and the attempt changes nothing, if it
-- does not hash like the new one.
pub authenticate-rotate_old :
    (hash_secret : String → String) (db : DbAnswers) (hex : String) (s : KeyStore) (k : ApiKey)
    (raw : String) (r : KeyRow) (t : ℕ)
    → IsUnique s.rows
    → last_hash (hash_secret raw) s.rows ≡ some r
    → hash_secret (secret_of hex) ≢ hash_secret raw
    → (rotate hash_secret db (some hex) r.id s).1 ≡ ok k
    → authenticate hash_secret t raw (rotate hash_secret db (some hex) r.id s).0
      ≡ ((rotate hash_secret db (some hex) r.id s).0, refused key_invalid)
authenticate-rotate_old hash_secret db hex s k raw r t u e n d =
    authenticate_missing hash_secret t raw (rotate hash_secret db (some hex) r.id s).0 (
      rw
        (
          (rotate-Rotated hash_secret db hex r.id s k d).cache,
          lookup-reload_rows,
          last_hash-update_row (hash_secret raw) (hash_secret (secret_of hex)) hex s.rows r u n e,
        )
        (lookup-nil (hash_secret raw)))
