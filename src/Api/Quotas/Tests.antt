-- ===== src/Api/Quotas/Tests.antt =====
-- Concrete requests and executions of a tenant, within and beyond its limits.
use kitematic.Base.{ℕ, ◌+◌, ◌-◌, ◌*◌, ◌≤◌, ◌≡◌, refl, arith, String, List, [], ◌∷◌}
use kitematic.Base.Dict.{lookup, insert}
use kitematic.Api.Quotas.{
  RateLimiter, TokenBucket, token, QuotaManager, consume, get_bucket, take_token, refill, take_if,
}
use kitematic.Api.Quotas.Rate.{passed, passed_le}

-- two tokens left, one more each second
abbrev bucket : TokenBucket
bucket = record { tokens = 2000000; max_tokens = 5000000; refill_rate = 1; last_refill = 0 }

abbrev limiter : RateLimiter
limiter = record { max_tokens = 5000000; refill_rate = 1; buckets = ("acme", bucket) ∷ [] }

abbrev requests : List (String × ℕ)
requests = ("acme", 0) ∷ ("acme", 1) ∷ ("other", 2) ∷ ("acme", 3) ∷ ("acme", 1000000) ∷ []

passed_three : passed "acme" requests limiter ≡ 3
unfolding passed consume get_bucket take_token refill take_if lookup insert
passed_three = refl

passed_le_example : token * passed "acme" requests limiter ≤ 2000000 + (1000000 - 0) * 1
unfolding lookup
passed_le_example =
    passed_le "acme" requests 1000000 limiter bucket refl
      (omega arith, (omega arith, (omega arith, (omega arith, (omega arith, omega arith)))))

abbrev quotas : QuotaManager
quotas = record { rate_limiter = limiter; concurrent = []; configs = [] }
