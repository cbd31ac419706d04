-- ===== src/Api/Quotas.antt =====
-- api/rest/quotas.py. Amounts of tokens are natural numbers in millionths of a token, times in
-- microseconds, and a refill rate in whole tokens per second, so that a refill is exact. Locks are
-- not modelled: each call is one step.
pub mod Rate
pub mod Concurrent
pub mod Tests
use kitematic.Base.{
  ℕ, ◌+◌, ◌-◌, ◌*◌, ◌/◌, String, str_eq, Bool, true, false, not, Option, none, some, List, [], ◌∷◌,
  ◌++◌, any, select, length, get_or, ltb, leb, if◌then◌else◌,
}
use kitematic.Base.Dict.{Dict, lookup, insert, erase}
use kitematic.Kernel.Contracts.{QuotaCalls}

pub record TokenBucket : Type 0 where
  pub tokens : ℕ
  pub max_tokens : ℕ
  pub refill_rate : ℕ
  pub last_refill : ℕ

pub record RateLimiter : Type 0 where
  pub max_tokens : ℕ
  pub refill_rate : ℕ
  pub buckets : Dict TokenBucket

-- one token
abbrev pub token : ℕ
token = 1000000

abbrev pub minimum : ℕ → ℕ → ℕ
minimum a b = if leb a b then a else b

-- `_get_bucket`: a new bucket is full
unfoldable pub get_bucket : String → (now : ℕ) → RateLimiter → TokenBucket
get_bucket tenant_id now l = get_or (lookup tenant_id l.buckets) (record {
  tokens = l.max_tokens;
  max_tokens = l.max_tokens;
  refill_rate = l.refill_rate;
  last_refill = now;
})

-- `_refill`, for a clock that does not run backwards
unfoldable pub refill : (now : ℕ) → TokenBucket → TokenBucket
refill now b = record b {
  tokens = minimum b.max_tokens (b.tokens + (now - b.last_refill) * b.refill_rate);
  last_refill = now;
}

unfoldable pub take_if : Bool → TokenBucket → Bool × TokenBucket
take_if true b = (true, record b { tokens = b.tokens - token })
take_if false b = (false, b)

-- the part of `consume` that works on the bucket
unfoldable pub take_token : (now : ℕ) → TokenBucket → Bool × TokenBucket
unfolding refill take_if
take_token now b = let full = refill now b in take_if (leb token full.tokens) full

abbrev pub put_bucket : String → RateLimiter → Bool × TokenBucket → Bool × RateLimiter
put_bucket tenant_id l (allowed, b) = (allowed, record l { buckets = insert tenant_id b l.buckets })

unfoldable pub consume : String → (now : ℕ) → RateLimiter → Bool × RateLimiter
unfolding get_bucket take_token
consume tenant_id now l = put_bucket tenant_id l (take_token now (get_bucket tenant_id now l))

-- in whole microseconds
unfoldable pub retry_after : String → (now : ℕ) → RateLimiter → ℕ × RateLimiter
unfolding get_bucket refill
retry_after tenant_id now l =
    let b = refill now (get_bucket tenant_id now l) in
    (
      if leb token b.tokens then 0 else (token - b.tokens) / b.refill_rate,
      record l { buckets = insert tenant_id b l.buckets },
    )

unfoldable pub reset : String → RateLimiter → RateLimiter
reset tenant_id l = record l { buckets = erase tenant_id l.buckets }

pub record TenantQuotaConfig : Type 0 where
  pub max_concurrent : ℕ
  pub max_total_per_minute : ℕ
  pub max_steps_per_execution : ℕ

abbrev pub default_config : TenantQuotaConfig
default_config = record {
  max_concurrent = 5;
  max_total_per_minute = 60;
  max_steps_per_execution = 10;
}

-- A set of executions is a list without repetitions.
pub record QuotaManager : Type 0 where
  pub rate_limiter : RateLimiter
  pub concurrent : Dict (List String)
  pub configs : Dict TenantQuotaConfig

abbrev pub add_to_set : String → List String → List String
add_to_set s set = if any (str_eq s) set then set else set ++ s ∷ []

abbrev pub discard : String → List String → List String
discard s set = select (λ t. not (str_eq s t)) set

unfoldable pub configure : String → TenantQuotaConfig → QuotaManager → QuotaManager
configure tenant_id config q = record q { configs = insert tenant_id config q.configs }

unfoldable pub get_config : String → QuotaManager → TenantQuotaConfig
get_config tenant_id q = get_or (lookup tenant_id q.configs) default_config

unfoldable pub concurrent_executions : String → QuotaManager → List String
concurrent_executions tenant_id q = get_or (lookup tenant_id q.concurrent) []

unfoldable pub concurrent_count : String → QuotaManager → ℕ
unfolding concurrent_executions
concurrent_count tenant_id q = length (concurrent_executions tenant_id q)

unfoldable pub check_concurrent : String → QuotaManager → Bool
unfolding concurrent_count get_config
check_concurrent tenant_id q =
    ltb (concurrent_count tenant_id q) (get_config tenant_id q).max_concurrent

unfoldable pub start_execution : (tenant_id execution_id : String) → QuotaManager → QuotaManager
unfolding concurrent_executions
start_execution tenant_id execution_id q = record q {
  concurrent =
      insert tenant_id (add_to_set execution_id (concurrent_executions tenant_id q)) q.concurrent;
}

abbrev pub end_among : String → String → Option (List String) → QuotaManager → QuotaManager
end_among tenant_id execution_id none q = q
end_among tenant_id execution_id (some executions) q = record q {
  concurrent = insert tenant_id (discard execution_id executions) q.concurrent;
}

unfoldable pub end_execution : (tenant_id execution_id : String) → QuotaManager → QuotaManager
end_execution tenant_id execution_id q =
    end_among tenant_id execution_id (lookup tenant_id q.concurrent) q

unfoldable pub check_and_consume_rate : String → (now : ℕ) → QuotaManager → Bool × QuotaManager
unfolding consume
check_and_consume_rate tenant_id now q =
    let (allowed, l) = consume tenant_id now q.rate_limiter in
    (allowed, record q { rate_limiter = l })

unfoldable pub cleanup : String → QuotaManager → QuotaManager
unfolding reset
cleanup tenant_id q = record q {
  concurrent = erase tenant_id q.concurrent;
  rate_limiter = reset tenant_id q.rate_limiter;
}

-- The quota manager as the runtime calls it; `seconds_text` prints a number of microseconds.
unfoldable pub quota_calls : (now : ℕ) (seconds_text : ℕ → String) → QuotaCalls QuotaManager
unfolding check_concurrent check_and_consume_rate retry_after start_execution end_execution
quota_calls now seconds_text = record {
  check_concurrent = check_concurrent;
  check_and_consume_rate = λ tenant_id q. check_and_consume_rate tenant_id now q;
  retry_after = λ tenant_id q.
      let (wait, l) = retry_after tenant_id now q.rate_limiter in
      (seconds_text wait, record q { rate_limiter = l });
  start_execution = start_execution;
  end_execution = end_execution;
}
