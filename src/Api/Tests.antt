-- ===== src/Api/Tests.antt =====
-- Runs of the models of services/api/api at concrete inputs, with a redis that keeps a dict.
use snake_arena.Prelude.{
  ℕ, suc, ◌+◌, ◌≡◌, refl, Option, none, some, List, [], ◌∷◌, arith, length, min, ltb, nat_key,
  if◌then◌else◌,
}
use snake_arena.Prelude.Dict.{Dict, lookup, insert, lookup-insert}
use snake_arena.Api.RateLimit.{Redis, IsRedis, held}
use snake_arena.Api.RateLimit.Grants.{grants, grants-limit}

-- A bucket's count and the end of its time to live.
abbrev unexpired : ℕ → Option (ℕ × ℕ) → Option ℕ
unexpired now none = none
unexpired now (some (n, end)) = if ltb now end then some n else none

abbrev dict_redis : Redis
dict_redis = record {
  Store = Dict ℕ (ℕ × ℕ);
  get = λ now start store. unexpired now (lookup start store);
  incr = λ now start ttl store.
      let n = suc (held (unexpired now (lookup start store))) in
      (n, insert start (n, now + ttl) store);
}

dict_redis-IsRedis : IsRedis dict_redis
dict_redis-IsRedis = record {
  counts = λ now start ttl store. refl;
  keeps = λ now later start ttl store from until.
      let n = suc (held (unexpired now (lookup start store))) in
      let hit = lookup-insert {V = ℕ × ℕ} start start (n, now + ttl) store in
      ground (arith, hit, until);
}

abbrev four_times : List ℕ
four_times = 7201 ∷ 7300 ∷ 7300 ∷ 10_799 ∷ []

grants-limit_example : grants dict_redis 3 3600 four_times [] ≡ min 3 (length four_times)
grants-limit_example =
    grants-limit dict_redis dict_redis-IsRedis 3 3600 7200 (omega arith) 7200 four_times []
      (omega arith, (omega arith, (omega arith, (omega arith, tt))))
      (refl, (refl, (refl, (refl, tt)))) (λ later from until. refl)
