-- ===== src/Api/RateLimit.antt =====
-- services/api/api/rate_limit.py: the fixed-window quotas. Redis is an argument, with what its
-- documentation says of the commands as laws. Times are whole seconds.
pub mod Grants
use snake_arena.Prelude.{
  ℕ, suc, ◌+◌, ◌-◌, ◌%◌, ◌≤◌, ◌<◌, ◌≡◌, Bool, true, false, Option, none, some, ltb, ◌==◌, nat_key,
  max, if◌then◌else◌,
}
use snake_arena.Prelude.Dict.{Dict, lookup, insert}
use snake_arena.Prelude.Result.{Result, ok, err}

abbrev pub held : Option ℕ → ℕ
held none = 0
held (some n) = n

-- Redis, for the buckets of one key: GET at a time, and INCR with EXPIRE, which gives the new count.
-- A bucket is named by its window's start.
pub record Redis : Type 1 where
  pub Store : Type 0
  pub get : ℕ → ℕ → Store → Option ℕ
  pub incr : ℕ → ℕ → ℕ → Store → ℕ × Store

-- What the documentation of the commands says: INCR adds one to the count, which is 0 for a missing
-- key, and the count can be read until the time to live is over.
pub record IsRedis (redis : Redis) : Type 0 where
  pub counts :
      (now start ttl : ℕ) (store : redis.Store)
      → (redis.incr now start ttl store).0 ≡ suc (held (redis.get now start store))
  pub keeps :
      (now later start ttl : ℕ) (store : redis.Store)
      → now ≤ later
      → later < now + ttl
      → redis.get later start (redis.incr now start ttl store).1
        ≡ some (redis.incr now start ttl store).0

-- `RateLimitResult`
pub record RateLimitResult : Type 0 where
  pub limit : ℕ
  pub used : ℕ
  pub remaining : ℕ
  pub reset_at : ℕ
  pub window_seconds : ℕ

-- The 429 that `_raise_429` raises, with its `Retry-After`.
pub record QuotaExceeded : Type 0 where
  pub result : RateLimitResult
  pub retry_after : ℕ

abbrev pub window_start : ℕ → ℕ → ℕ
window_start window now = now - now % window

abbrev pub result_of : ℕ → ℕ → ℕ × ℕ → RateLimitResult
result_of limit window (used, reset_at) = record {
  limit = limit;
  used = used;
  remaining = limit - used;
  reset_at = reset_at;
  window_seconds = window;
}

abbrev pub raise_429 : ℕ → RateLimitResult → QuotaExceeded
raise_429 now r = record { result = r; retry_after = max 1 (r.reset_at - now) }

module _ (redis : Redis) where
  -- `_incr_bucket`: the count, the end of the window, and the store.
  unfoldable pub incr_bucket : ℕ → ℕ → Bool → redis.Store → (ℕ × ℕ) × redis.Store
  incr_bucket now window dry_run store =
      let start = window_start window now in
      if dry_run
      then ((held (redis.get now start store), start + window), store)
      else let (used, store') = redis.incr now start window store in
        ((used, start + window), store')

  -- `peek_quota`
  unfoldable pub peek_quota : ℕ → ℕ → ℕ → redis.Store → RateLimitResult
  unfolding incr_bucket
  peek_quota now limit window store = result_of limit window (incr_bucket now window true store).0

  -- `check_quota_available`
  unfoldable pub check_quota_available :
      ℕ → ℕ → ℕ → redis.Store → Result QuotaExceeded RateLimitResult
  unfolding peek_quota
  check_quota_available now limit window store =
      let r = peek_quota now limit window store in
      if r.remaining == 0 then err (raise_429 now r) else ok r

  -- `consume_quota`
  unfoldable pub consume_quota :
      ℕ → ℕ → ℕ → redis.Store → Result QuotaExceeded RateLimitResult × redis.Store
  unfolding incr_bucket
  consume_quota now limit window store =
      let (reading, store') = incr_bucket now window false store in
      let r = result_of limit window reading in
      (if ltb limit r.used then err (raise_429 now r) else ok r, store')
