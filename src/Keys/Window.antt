-- ===== src/Keys/Window.antt =====
-- How many requests the fixed window of a rate-limited key admits.
use wa_gateway.Base.{
  inl, inr, ℕ, suc, ◌+◌, ◌-◌, ◌*◌, ◌≤◌, ◌<◌, min, ◌≡◌, ◌≢◌, refl, true, false, List, [], ◌∷◌, All,
  length, pos_part, is_positive, arith, ◌∙◌, ◌⊎◌, if◌then◌else◌, ltb,
}
use wa_gateway.Keys.{KeyState, ApiKey, window, is_expired, admit}

-- A burst of requests with one key, at the given times.
pub after : List ℕ → KeyState → KeyState
after [] st = st
after (t ∷ ts) st = after ts (admit t st).0

pub admitted : List ℕ → KeyState → ℕ
admitted [] st = 0
admitted (t ∷ ts) st = (if (admit t st).1.rate.allowed then 1 else 0) + admitted ts (admit t st).0

-- The key is enabled, rate limited and not expired at `t`.
pub record IsLive (k : ApiKey) (t : ℕ) : Type 0 where
  pub on : k.enabled ≡ true
  pub current : is_expired k t ≡ false
  pub limited : is_positive k.rate_limit ≡ true

key-admit : (t : ℕ) (st : KeyState) → (admit t st).0.key ≡ st.key
unfolding admit
key-admit t st = ground arith

-- one request inside the window
pub record Counted (t : ℕ) (st : KeyState) : Type 0 where
  pub start : (admit t st).0.win_start ≡ st.win_start
  pub count :
      (admit t st).0.win_count
      ≡ (if ltb st.win_count (pos_part st.key.rate_limit) then suc st.win_count else st.win_count)
  pub granted : (admit t st).1.rate.allowed ≡ ltb st.win_count (pos_part st.key.rate_limit)

admit-Counted :
    (t : ℕ) (st : KeyState)
    → IsLive st.key t
    → st.win_start ≢ 0
    → t - st.win_start < window st.key
    → Counted t st
unfolding admit
admit-Counted t st l n w = ground arith

-- one request that begins a window
record Begun (t : ℕ) (st : KeyState) : Type 0 where
  start : (admit t st).0.win_start ≡ t
  count : (admit t st).0.win_count ≡ 1

admit-Begun :
    (t : ℕ) (st : KeyState)
    → IsLive st.key t
    → (st.win_start ≡ 0) ⊎ (window st.key ≤ t - st.win_start)
    → Begun t st
unfolding admit
admit-Begun t st l h = ground arith

module _ (k : ApiKey) (w : ℕ) (set : w ≢ 0) where
  admitted_in :
      (ts : List ℕ) (st : KeyState)
      → st.key ≡ k
      → st.win_start ≡ w
      → All (IsLive k) ts
      → All (λ t. t - w < window k) ts
      → admitted ts st ≡ min (length ts) (pos_part k.rate_limit - st.win_count)
  unfolding admitted
  admitted_in [] st e s l h = omega arith
  admitted_in (t ∷ ts) st e s (l, ls) (h, hs) =
      let one : Counted t st = admit-Counted t st (rw e l) (rw s set) (rw (s, e) h) in
      let rest = admitted_in ts (admit t st).0 (key-admit t st ∙ e) (one.start ∙ s) ls hs in
      ground (arith, e, one.count, one.granted, rest)

-- In an open window, of the requests with an enabled, rate-limited and unexpired key at times
-- inside it, as many are admitted as the limit has left, or all if they are fewer.
pub admitted-window :
    (ts : List ℕ) (st : KeyState)
    → st.win_start ≢ 0
    → All (IsLive st.key) ts
    → All (λ t. t - st.win_start < window st.key) ts
    → admitted ts st ≡ min (length ts) (pos_part st.key.rate_limit - st.win_count)
admitted-window ts st n l h = admitted_in st.key st.win_start n ts st refl refl l h

-- times in a span as long as one window
abbrev pub Within : ℕ → ApiKey → List ℕ → Type 0
Within a k ts = All (λ t. (a ≤ t) × (t < a + window k)) ts

Within-window :
    (a t : ℕ) (k : ApiKey) (ts : List ℕ)
    → a ≤ t
    → Within a k ts
    → 0 < window k
    → All (λ u. u - t < window k) ts
Within-window a t k [] h w p = tt
Within-window a t k (u ∷ us) h (w, ws) p = (omega arith, Within-window a t k us h ws p)

window-pos : (k : ApiKey) → 0 < window k
window-pos k = ground arith

window_cases :
    (t : ℕ) (st : KeyState)
    → ((st.win_start ≡ 0) ⊎ (window st.key ≤ t - st.win_start))
      ⊎ ((st.win_start ≢ 0) × (t - st.win_start < window st.key))
window_cases t st = ground arith

module _ (k : ApiKey) (a : ℕ) (after_epoch : 0 < a) where
  admitted_span :
      (ts : List ℕ) (st : KeyState)
      → st.key ≡ k
      → All (IsLive k) ts
      → Within a k ts
      → admitted ts st ≤ (pos_part k.rate_limit - st.win_count) + pos_part k.rate_limit
  unfolding admitted
  admitted_span [] st e l h = omega arith
  admitted_span (t ∷ ts) st e (l, ls) (h, hs) = elim (window_cases t st) [
    | inl begins ↦
        let new : Begun t st = admit-Begun t st (rw e l) begins in
        let rest =
          admitted_in k t (omega arith) ts (admit t st).0 (key-admit t st ∙ e) new.start ls
            (Within-window a t k ts h.0 hs (window-pos k)) in
        ground (arith, new.count, rest, l.limited)
    | inr (n, w) ↦
        let one : Counted t st = admit-Counted t st (rw e l) n w in
        let rest = admitted_span ts (admit t st).0 (key-admit t st ∙ e) ls hs in
        ground (arith, e, one.count, one.granted, rest)
  ]

-- Of the requests with an enabled, rate-limited and unexpired key in any span after 1970 that is
-- as long as one window, at most twice the limit is admitted, whatever state the key was in
-- before.
pub admitted_burst :
    (a : ℕ) (ts : List ℕ) (st : KeyState)
    → 0 < a
    → All (IsLive st.key) ts
    → Within a st.key ts
    → admitted ts st ≤ 2 * pos_part st.key.rate_limit
admitted_burst a ts st p l h = omega (arith, admitted_span st.key a p ts st refl l h)
