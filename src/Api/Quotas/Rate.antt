-- ===== src/Api/Quotas/Rate.antt =====
-- The promise of the token bucket of api/rest/quotas.py: how many requests pass in a span of time.
use native.Mathlib.Nat.{add-mul}
use mathlib.Core.Path.{subst₂}
use kitematic.Base.Dict.{lookup, lookup-insert_self, lookup-insert_ne}
use kitematic.Base.{
  String, str_eq, str_eq_cases, ◌&&◌, inl, inr, ◌≢◌, map, some, sym, ap, ◌∙◌, leb→le, ℕ, ◌+◌, ◌-◌,
  ◌*◌, ◌≤◌, ◌≡◌, refl, Bool, true, false, List, [], ◌∷◌, leb, arith, if◌then◌else◌,
}
use kitematic.Api.Quotas.{
  RateLimiter, consume, get_bucket, TokenBucket, token, minimum, refill, take_if, take_token,
}

-- The times do not decrease, from `start` to `end`.
abbrev pub IsOrdered : ℕ → List ℕ → ℕ → Type 0
IsOrdered start [] end = start ≤ end
IsOrdered start (now ∷ times) end = (start ≤ now) × IsOrdered now times end

abbrev cost : Bool → ℕ
cost true = token
cost false = 0

-- From the bucket `b` to `b'` at the time `now`: what is taken and what is left fit what was there.
Pays : ℕ → TokenBucket → Bool × TokenBucket → Type 0
Pays now b (allowed, b') =
    (cost allowed + b'.tokens ≤ b.tokens + (now - b.last_refill) * b.refill_rate)
    × (b'.last_refill ≡ now)
    × (b'.refill_rate ≡ b.refill_rate)

minimum-le : (a b : ℕ) → minimum a b ≤ b
minimum-le a b = ground arith

take_if-Pays :
    (now : ℕ) (b : TokenBucket) (test : Bool)
    → leb token (refill now b).tokens ≡ test
    → Pays now b (take_if test (refill now b))
unfolding Pays refill take_if
take_if-Pays now b true h =
    let enough = leb→le token _ h in
    (
      omega (arith, minimum-le b.max_tokens (b.tokens + (now - b.last_refill) * b.refill_rate)),
      refl,
      refl,
    )
take_if-Pays now b false h = (
  omega (arith, minimum-le b.max_tokens (b.tokens + (now - b.last_refill) * b.refill_rate)),
  refl,
  refl,
)

take_token-Pays : (now : ℕ) (b : TokenBucket) → Pays now b (take_token now b)
unfolding take_token
take_token-Pays now b = take_if-Pays now b _ refl

ordered-le : (start : ℕ) (times : List ℕ) (end : ℕ) → IsOrdered start times end → start ≤ end
ordered-le start [] end h = h
ordered-le start (now ∷ times) end (h, k) = omega (arith, ordered-le now times end k)

-- the refills of two spans, one after the other, are the refill of both together
spans : (a b c rate : ℕ) → a ≤ b → b ≤ c → (b - a) * rate + (c - b) * rate ≡ (c - a) * rate
spans a b c rate h k = sym (add-mul (b - a) (c - b) rate) ∙ ap (λ x. x * rate) (omega arith)

bound :
    (allowed : Bool) (passed left held here later : ℕ) {all : ℕ}
    → cost allowed + left ≤ held + here
    → token * passed ≤ left + later
    → here + later ≡ all
    → token * ((if allowed then 1 else 0) + passed) ≤ held + all
bound true passed left held here later h k e = omega arith
bound false passed left held here later h k e = omega arith

-- A request at the time `now`, followed by `n` that pass until `end`.
own_step :
    (now end n : ℕ) (times : List ℕ) (b : TokenBucket)
    → b.last_refill ≤ now
    → IsOrdered now times end
    → (let b' = (take_token now b).1 in
        token * n ≤ b'.tokens + (end - b'.last_refill) * b'.refill_rate)
    → token * ((if (take_token now b).0 then 1 else 0) + n)
      ≤ b.tokens + (end - b.last_refill) * b.refill_rate
unfolding Pays
own_step now end n times b h later rest =
    let step = take_token now b in
    let (fits, at, same) = take_token-Pays now b in
    let both = spans b.last_refill now end b.refill_rate h (ordered-le now times end later) in
    bound step.0 n step.1.tokens _ ((now - b.last_refill) * b.refill_rate)
      ((end - now) * b.refill_rate) fits
      (subst₂ (λ at_time rate. token * n ≤ step.1.tokens + (end - at_time) * rate) at same rest)
      both

-- Requests of several tenants, with their times: how many of one tenant's pass.
unfoldable pub passed : (tenant_id : String) → List (String × ℕ) → RateLimiter → ℕ
passed tenant_id [] l = 0
passed tenant_id ((other, now) ∷ requests) l =
    let (allowed, l') = consume other now l in
    (if str_eq other tenant_id && allowed then 1 else 0) + passed tenant_id requests l'

abbrev pub times_of : List (String × ℕ) → List ℕ
times_of requests = map (λ request. request.1) requests

IsOrdered-earlier :
    (start now : ℕ) (times : List ℕ) (end : ℕ)
    → start ≤ now
    → IsOrdered now times end
    → IsOrdered start times end
IsOrdered-earlier start now [] end h k = omega arith
IsOrdered-earlier start now (time ∷ times) end h (k, later) = (omega arith, later)

-- A request finds the bucket of its tenant, and stores what `take_token` leaves of it.
lookup-consume_self :
    (tenant_id : String) (now : ℕ) (l : RateLimiter) (b : TokenBucket)
    → lookup tenant_id l.buckets ≡ some b
    → ((consume tenant_id now l).0 ≡ (take_token now b).0)
      × (lookup tenant_id (consume tenant_id now l).1.buckets ≡ some (take_token now b).1)
unfolding consume get_bucket
lookup-consume_self tenant_id now l b h = rw (h, lookup-insert_self) (refl, refl)

lookup-consume_other :
    (other tenant_id : String) (now : ℕ) (l : RateLimiter)
    → other ≢ tenant_id
    → lookup tenant_id (consume other now l).1.buckets ≡ lookup tenant_id l.buckets
unfolding consume
lookup-consume_other other tenant_id now l n = lookup-insert_ne other tenant_id _ l.buckets n

module _ (tenant_id : String) where
  -- In a span of time the requests of a tenant that pass cost at most the tokens that its bucket
  -- held at the start and those that the refill rate adds in the span, whatever other tenants
  -- request in between; the clock must not run backwards.
  pub passed_le :
      (requests : List (String × ℕ)) (end : ℕ) (l : RateLimiter) (b : TokenBucket)
      → lookup tenant_id l.buckets ≡ some b
      → IsOrdered b.last_refill (times_of requests) end
      → token * passed tenant_id requests l ≤ b.tokens + (end - b.last_refill) * b.refill_rate
  unfolding passed Pays
  passed_le [] end l b h ordered = ground arith
  passed_le ((other, now) ∷ requests) end l b h (at_most, later) =
      elim (str_eq_cases other tenant_id) [
        | inl (e, same) ↦
            let (answer, found) = lookup-consume_self other now l b (rw same h) in
            let (fits, at, _) = take_token-Pays now b in
            rw (e, answer)
              (own_step now end _ (times_of requests) b at_most later (
                passed_le requests end (consume other now l).1 (take_token now b).1
                  (rw (sym same) found) (rw at later)))
        | inr (e, n) ↦ rw e (
            omega (
              arith,
              passed_le requests end (consume other now l).1 b
                  (lookup-consume_other other tenant_id now l n ∙ h)
                  (IsOrdered-earlier b.last_refill now (times_of requests) end at_most later),
            ))
      ]
