-- ===== src/Api/RateLimit/Grants.antt =====
-- services/api/api/rate_limit.py: how many requests of a window are granted.
use native.Mathlib.Nat.{mod-lt}
use snake_arena.Prelude.{
  ℕ, suc, ◌+◌, ◌-◌, ◌%◌, ◌≤◌, ◌<◌, ◌≡◌, ap, ◌∙◌, Bool, true, false, List, [], ◌∷◌, ltb, nat_key,
  arith, length, min, All, if◌then◌else◌,
}
use snake_arena.Prelude.Result.{Result, ok, err}
use snake_arena.Api.RateLimit.{
  Redis, IsRedis, held, RateLimitResult, QuotaExceeded, window_start, check_quota_available,
  consume_quota,
}

abbrev pub is_granted : Result QuotaExceeded RateLimitResult → Bool
is_granted (ok r) = true
is_granted (err e) = false

-- Times that follow one another.
abbrev pub InOrder : ℕ → List ℕ → Type 0
InOrder t [] = Unit
InOrder t (u ∷ us) = (t ≤ u) × InOrder u us

module _ (redis : Redis) where
  -- The number of the requests at these times that are granted.
  unfoldable pub grants : ℕ → ℕ → List ℕ → redis.Store → ℕ
  unfolding consume_quota
  grants limit window [] store = 0
  grants limit window (now ∷ nows) store =
      let (answer, store') = consume_quota redis now limit window store in
      (if is_granted answer then 1 else 0) + grants limit window nows store'

module _ (redis : Redis) (laws : IsRedis redis) where
  -- A check without another request in between says what the consumption then says.
  pub check_quota_available-consume :
      (now limit window : ℕ) (store : redis.Store)
      → is_granted (check_quota_available redis now limit window store)
        ≡ is_granted (consume_quota redis now limit window store).0
  unfolding check_quota_available consume_quota
  check_quota_available-consume now limit window store =
      let count = laws.counts now (window_start window now) window store in ground (arith, count)

  module _ (limit window start : ℕ) (positive : 0 < window) where
    -- From `t` to the end of the window, the count is `n`.
    abbrev pub Holds : ℕ → ℕ → redis.Store → Type 0
    Holds t n store =
        (later : ℕ) → t ≤ later → later < start + window → held (redis.get later start store) ≡ n

    in_window : (now : ℕ) → window_start window now ≡ start → (now < start + window) × (start ≤ now)
    in_window now e =
        let m : now % window < window = mod-lt now positive in (omega (arith, m), omega arith)

    consumed :
        (t n now : ℕ) (store : redis.Store)
        → window_start window now ≡ start
        → t ≤ now
        → Holds t n store
        → (is_granted (consume_quota redis now limit window store).0 ≡ ltb n limit)
          × Holds now (suc n) (consume_quota redis now limit window store).1
    unfolding consume_quota
    consumed t n now store e le h =
        let inside = in_window now e in
        let old : held (redis.get now start store) ≡ n = h now le inside.0 in
        let new : (redis.incr now start window store).0 ≡ suc n =
          laws.counts now start window store ∙ ap suc old in
        rw e (
          ground (arith, new),
          λ later from until.
              ap held
                (laws.keeps now later start window store from (omega (arith, until, inside.1)))
              ∙ new,
        )

    grants-left :
        (t n : ℕ) (nows : List ℕ) (store : redis.Store)
        → InOrder t nows
        → All (λ now. window_start window now ≡ start) nows
        → Holds t n store
        → grants redis limit window nows store ≡ min (limit - n) (length nows)
    unfolding grants
    grants-left t n [] store order all h = omega arith
    grants-left t n (now ∷ nows) store order all h =
        let c = consumed t n now store all.0 order.0 h in
        let rest =
          grants-left now (suc n) nows (consume_quota redis now limit window store).1 order.1 all.1
            c.1 in
        ground (arith, c.0, rest)

    -- Of any requests in one window, the first `limit` are granted and no other, if the window's
    -- bucket is empty before them.
    pub grants-limit :
        (t : ℕ) (nows : List ℕ) (store : redis.Store)
        → InOrder t nows
        → All (λ now. window_start window now ≡ start) nows
        → Holds t 0 store
        → grants redis limit window nows store ≡ min limit (length nows)
    grants-limit t nows store order all fresh =
        let left = grants-left t 0 nows store order all fresh in omega (arith, left)
