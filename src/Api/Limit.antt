-- ===== src/Api/Limit.antt =====
-- How many sessions a key can own through the handlers (internal/api/server.go).
use wa_gateway.Base.{
  ℕ, suc, ◌+◌, ◌≤◌, ◌<◌, String, Bool, true, false, not, ◌&&◌, ◌||◌, ◌==◌, ◌≡◌, refl, sym, subst,
  arith, List, [], ◌∷◌, ◌++◌, Option, none, some, ℤ, pos, pos_part, neg_part, ap, ◌∙◌, ltb_ℤ,
  is_positive, if◌then◌else◌, All, count_if, Bool-cases, inl, inr, eq_iff,
}
use wa_gateway.Base.Paging.{count_if-filter_if_le}
use wa_gateway.Keys.{ApiKey}
use wa_gateway.Retention.{Tables, PurgeAnswers}
use wa_gateway.Manager.{
  ManagerState, SessionRow, new_row, create, remove, is_live, is_named, row_known,
  session_count_by_key,
}
use wa_gateway.Api.Sessions.{owner_of, is_at_limit, handle_create_session, handle_delete_session}

-- a request of the two handlers; each is served before the next
pub data SessionRequest : Type 0 where
  to_create : Bool → Bool → Option ApiKey → Option String → SessionRequest
  to_delete : Bool → PurgeAnswers → Bool → String → SessionRequest

-- every COUNT goes through
unfoldable pub serve : SessionRequest → ManagerState × Tables → ManagerState × Tables
serve (to_create goes starts key body) (st, tables) =
    ((handle_create_session true goes starts key body st).1, tables)
serve (to_delete goes answers enabled name) (st, tables) =
    let (reply, next, left) = handle_delete_session goes answers enabled name st tables in
    (next, left)

unfoldable pub serve_all : List SessionRequest → ManagerState × Tables → ManagerState × Tables
serve_all [] s = s
serve_all (r ∷ requests) s = serve_all requests (serve r s)

module _ (id : String) (limit : ℕ) where
  -- a request under the key `id` carries this limit, and is not the master's
  abbrev pub IsLimited : SessionRequest → Type 0
  IsLimited (to_create goes starts none body) = Unit
  IsLimited (to_create goes starts (some key) body) =
      (key.id == id) ≡ true → (key.master ≡ false) × (key.max_sessions ≡ pos (suc limit))
  IsLimited (to_delete goes answers enabled name) = Unit

  abbrev owned : ManagerState → ℕ
  owned st = session_count_by_key id st

  count_if-append_row :
      (rows : List SessionRow) (r : SessionRow)
      → count_if (λ x. x.owner_key == id) (rows ++ r ∷ [])
        ≡ count_if (λ x. x.owner_key == id) rows + (if r.owner_key == id then 1 else 0)
  count_if-append_row [] r = omega arith
  count_if-append_row (x ∷ rows) r = omega (arith, count_if-append_row rows r)

  owned-create :
      (goes starts : Bool) (name owner : String) (st : ManagerState)
      → owned (create goes starts name owner st).1 ≤ owned st + (if owner == id then 1 else 0)
  unfolding create
  owned-create goes starts name owner st = elim (Bool-cases (name == "")) [
    | inl a ↦ rw a (omega arith)
    | inr a ↦ rw a (elim (Bool-cases (is_live name st.sessions)) [
      | inl b ↦ rw b (omega arith)
      | inr b ↦ rw b (elim (Bool-cases (not goes || row_known name st.rows)) [
        | inl c ↦ rw c (omega arith)
        | inr c ↦ rw c (omega (arith, count_if-append_row st.rows (new_row name owner)))
      ])
    ])
  ]

  owned-remove :
      (goes : Bool) (answers : PurgeAnswers) (enabled : Bool) (name : String) (st : ManagerState)
      (tables : Tables)
      → owned (remove goes answers enabled name st tables).1 ≤ owned st
  unfolding remove
  owned-remove goes answers enabled name st tables = elim (Bool-cases (is_live name st.sessions)) [
    | inr a ↦ rw a (omega arith)
    | inl a ↦ rw a (elim (Bool-cases goes) [
      | inr b ↦ rw b (omega arith)
      | inl b ↦
          rw b (count_if-filter_if_le (λ x. x.owner_key == id) (λ r. not (is_named name r)) st.rows)
    ])
  ]

  below_limit :
      (n : ℕ) (master : Bool) (max_sessions : ℤ)
      → master ≡ false
      → pos_part max_sessions ≡ suc limit
      → neg_part max_sessions ≡ 0
      → (not master && is_positive max_sessions && true && not (ltb_ℤ (pos n) max_sessions)) ≡ false
      → n < suc limit
  below_limit n true max_sessions m p q f = ground (arith, m)
  below_limit n false max_sessions m p q f = ground (arith, p, q, f)

  owner_of_master : (key : ApiKey) → key.master ≡ true → owner_of (some key) ≡ ""
  owner_of_master key m = rw m refl

  owner_of_plain : (key : ApiKey) → key.master ≡ false → owner_of (some key) ≡ key.id
  owner_of_plain key m = rw m refl

  -- a request that is recorded under `id` finds the limit not reached
  recorded-below :
      (goes starts : Bool) (key : Option ApiKey) (body : Option String) (st : ManagerState)
      → (id == "") ≡ false
      → IsLimited (to_create goes starts key body)
      → owner_of key ≡ id
      → is_at_limit true key st ≡ false
      → owned st < suc limit
  recorded-below goes starts none body st n h e f =
      absurd (ground (arith, n, (eq_iff id "").1 (sym e)))
  recorded-below goes starts (some key) body st n h e f = elim (Bool-cases key.master) [
    | inl m ↦ absurd (ground (arith, n, (eq_iff id "").1 (sym e ∙ owner_of_master key m)))
    | inr m ↦
        let same : key.id ≡ id = sym (owner_of_plain key m) ∙ e in
        let (plain, limited) = h ((eq_iff key.id id).1 same) in
        subst (λ k. session_count_by_key k st < suc limit) same
          (below_limit (session_count_by_key key.id st) key.master key.max_sessions plain
            (ap pos_part limited) (ap neg_part limited) f)
  ]

  serve-owned :
      (r : SessionRequest) (st : ManagerState) (tables : Tables)
      → (id == "") ≡ false
      → IsLimited r
      → owned st ≤ suc limit
      → owned (serve r (st, tables)).0 ≤ suc limit
  unfolding serve handle_create_session handle_delete_session
  serve-owned (to_create goes starts key none) st tables n h k = k
  serve-owned (to_create goes starts key (some name)) st tables n h k =
      elim (Bool-cases (name == "")) [
        | inl a ↦ rw a k
        | inr a ↦ rw a (elim (Bool-cases (is_at_limit true key st)) [
          | inl b ↦ rw b k
          | inr b ↦ rw b (elim (Bool-cases (owner_of key == id)) [
            | inl e ↦ ground (
              arith,
              e,
              owned-create goes starts name (owner_of key) st,
              recorded-below goes starts key (some name) st n h ((eq_iff (owner_of key) id).0 e) b,
            )
            | inr e ↦ ground (arith, e, owned-create goes starts name (owner_of key) st)
          ])
        ])
      ]
  serve-owned (to_delete goes answers enabled name) st tables n h k =
      elim (Bool-cases (name == "")) [
        | inl a ↦ rw a k
        | inr a ↦ rw a (omega (arith, owned-remove goes answers enabled name st tables))
      ]

-- Served one after the other, with every COUNT answered, no requests bring a key above its limit of
-- sessions: if the requests under its id carry that limit and the key owns no more sessions than it,
-- then it owns no more after them, whatever other keys create and whoever deletes.
pub serve_all-owned :
    (id : String) (limit : ℕ) (requests : List SessionRequest) (st : ManagerState) (tables : Tables)
    → (id == "") ≡ false
    → All (IsLimited id limit) requests
    → session_count_by_key id st ≤ suc limit
    → session_count_by_key id (serve_all requests (st, tables)).0 ≤ suc limit
unfolding serve_all
serve_all-owned id limit [] st tables n h k = k
serve_all-owned id limit (r ∷ requests) st tables n (p, h) k =
    serve_all-owned id limit requests _ _ n h (serve-owned id limit r st tables n p k)
