-- ===== src/RateLimit/Bounded.antt =====
-- services/rate_limit.py: how many requests of a client are allowed.
use sas_core.Prelude.{
  ℕ, ◌+◌, ◌-◌, ◌*◌, ◌≤◌, String, false, ◌||◌, ◌≡◌, refl, sym, ◌∙◌, ap, subst, none, some, List, [],
  ◌∷◌, nat_beq, if◌then◌else◌, ◌==◌, string_eq, eq_iff, Bool-cases, inl, inr, arith,
}
use native.Mathlib.Nat.{add-mul}
use sas_core.RateLimit.{
  TokenBucket, RateSettings, millionth, whole_token, new_bucket, refill, take_token, Buckets,
  find_bucket, bucket_or_new, put_bucket, store_bucket, allow, allow_all,
}

-- The time of the last of some times, or `start`.
unfoldable pub last_time : ℕ → List ℕ → ℕ
last_time start [] = start
last_time start (t ∷ ts) = last_time t ts

-- The clock does not go back.
unfoldable pub Ascending : ℕ → List ℕ → Type 0
Ascending start [] = Unit
Ascending start (t ∷ ts) = (start ≤ t) × Ascending t ts

put-find :
    (bs : Buckets) (key : String) (b : TokenBucket) → find_bucket (put_bucket bs key b) key ≡ some b
unfolding find_bucket put_bucket
put-find [] key b = rw ((eq_iff key key).1 refl) refl
put-find ((k, old) ∷ rest) key b = elim (Bool-cases (k == key)) [
  | inl hit ↦ rw hit (rw hit refl)
  | inr miss ↦ let later = put-find rest key b in rw miss (rw miss later)
]

-- One request: what it takes and leaves is what there was and what has elapsed.
take_spends :
    (s : RateSettings) (b : TokenBucket) (now : ℕ)
    → (if (take_token s b now).0 then 1 else 0) * whole_token + (take_token s b now).1.tokens
      ≤ b.tokens + (now - b.updated_at) * s.per_second
unfolding take_token refill
take_spends s b now = ground arith

take_updates :
    (s : RateSettings) (b : TokenBucket) (now : ℕ) → (take_token s b now).1.updated_at ≡ now
unfolding take_token
take_updates s b now = ground arith

allow-take :
    (s : RateSettings) (bs : Buckets) (key : String) (now : ℕ)
    → nat_beq s.per_second 0 || nat_beq s.burst 0 ≡ false
    → allow s bs key now
      ≡ store_bucket bs key (take_token s (bucket_or_new s now (find_bucket bs key)) now)
unfolding allow
allow-take s bs key now h = rw h refl

spread : (a b c rate : ℕ) → a ≤ b → b ≤ c → (b - a) * rate + (c - b) * rate ≡ (c - a) * rate
spread a b c rate h k = sym (add-mul (b - a) (c - b) rate) ∙ ap (λ (d : ℕ). d * rate) (omega arith)

last-later : (start : ℕ) (times : List ℕ) → Ascending start times → start ≤ last_time start times
unfolding Ascending last_time
last-later start [] a = ground arith
last-later start (t ∷ ts) a = let rest = last-later t ts a.1 in ground arith

module _ (s : RateSettings) (key : String)
    (on : nat_beq s.per_second 0 || nat_beq s.burst 0 ≡ false) where
  -- A request from the bucket `b`, and the later ones from what it leaves.
  spent_first :
      (bs : Buckets) (b : TokenBucket) (now : ℕ) (times : List ℕ)
      → bucket_or_new s now (find_bucket bs key) ≡ b
      → (b.updated_at ≤ now) × Ascending now times
      → (allow_all s (put_bucket bs key (take_token s b now).1) key times).0 * whole_token
        ≤ (take_token s b now).1.tokens + (last_time now times - now) * s.per_second
      → (allow_all s bs key (now ∷ times)).0 * whole_token
        ≤ b.tokens + (last_time now times - b.updated_at) * s.per_second
  unfolding allow_all store_bucket
  spent_first bs b now times f a rest =
      let taken = take_spends s b now in
      let whole =
        spread b.updated_at now (last_time now times) s.per_second a.0 (last-later now times a.1) in
      rw (allow-take s bs key now on, f) (ground arith)

  spent_later :
      (bs : Buckets) (b : TokenBucket) (times : List ℕ)
      → find_bucket bs key ≡ some b
      → Ascending b.updated_at times
      → (allow_all s bs key times).0 * whole_token
        ≤ b.tokens + (last_time b.updated_at times - b.updated_at) * s.per_second
  unfolding Ascending last_time bucket_or_new allow_all
  spent_later bs b [] f a = ground arith
  spent_later bs b (now ∷ times) f a =
      let left = (take_token s b now).1 in
      let fresh = take_updates s b now in
      spent_first bs b now times (rw f refl) a (
        subst
          (λ (t : ℕ).
            (allow_all s (put_bucket bs key left) key times).0 * whole_token
            ≤ left.tokens + (last_time t times - t) * s.per_second)
          fresh
          (spent_later (put_bucket bs key left) left times (put-find bs key left)
            (subst (λ (t : ℕ). Ascending t times) (sym fresh) a.1)))

-- A client without a bucket, whose requests come at ascending times, is allowed at most the burst and
-- what its rate gives from the first request to the last.
pub allow_all_bound :
    (s : RateSettings) (bs : Buckets) (key : String) (first : ℕ) (times : List ℕ)
    → nat_beq s.per_second 0 || nat_beq s.burst 0 ≡ false
    → find_bucket bs key ≡ none
    → Ascending first times
    → (allow_all s bs key (first ∷ times)).0 * whole_token
      ≤ s.burst * millionth + (last_time first times - first) * s.per_second
unfolding bucket_or_new new_bucket
allow_all_bound s bs key first times on missing a =
    let full = new_bucket s first in
    let left = (take_token s full first).1 in
    let fresh = take_updates s full first in
    spent_first s key on bs full first times (rw missing refl) (ground arith, a)
      (subst
        (λ (t : ℕ).
          (allow_all s (put_bucket bs key left) key times).0 * whole_token
          ≤ left.tokens + (last_time t times - t) * s.per_second)
        fresh
        (spent_later s key on (put_bucket bs key left) left times (put-find bs key left)
          (subst (λ (t : ℕ). Ascending t times) (sym fresh) a)))
