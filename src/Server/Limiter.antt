-- ===== src/Server/Limiter.antt =====
-- internal/server/ratelimit.go: a token bucket for each key.
pub mod Bounds
pub mod Independence
use xlistman.Prelude.{
  ℕ, zero, suc, ◌-◌, Bool, not, Option, none, some, List, [], ◌∷◌, ltb, keep, first, update_where,
  any, length, if◌then◌else◌,
}
use xlistman.Strings.{Text, text_eq}
use xlistman.Model.{Time, hour}

-- golang.org/x/time/rate.Limiter: NewLimiter with the interval of rate.Every and the burst, Allow,
-- Reserve with the reservation's Delay, and its Cancel. Each gives the limiter as it leaves it.
pub record RateLimiter (B : Type 0) : Type 0 where
  pub new_limiter : Time → ℕ → B
  pub allow_at : Time → B → Bool × B
  pub reserve_at : Time → B → Time × B
  pub cancel_at : Time → B → B

-- limiterEntry, with its key; time.Time{} is 0.
pub record LimiterEntry (B : Type 0) : Type 0 where
  pub key : Text
  pub lim : B
  pub last_seen : Time

-- keyedRateLimiter; the map is the list of its entries.
pub record KeyedRateLimiter (B : Type 0) : Type 0 where
  pub interval : Time
  pub burst : ℕ
  pub prune_after : Time
  pub buckets : List (LimiterEntry B)

abbrev pub max_buckets : ℕ
max_buckets = 4096

module _ {B : Type 0} where
  abbrev pub has_key : Text → LimiterEntry B → Bool
  has_key key e = text_eq e.key key

  -- sweepLocked: now.Add(-l.pruneAfter)
  unfoldable pub sweep_locked : Time → KeyedRateLimiter B → KeyedRateLimiter B
  sweep_locked now l = record l {
    buckets = keep (λ e. not (ltb e.last_seen (now - l.prune_after))) l.buckets;
  }

  -- e.lastSeen = now, in the entry that the map has; the entry may have been swept.
  unfoldable pub seen : Time → Text → KeyedRateLimiter B → KeyedRateLimiter B
  seen now key l = record l {
    buckets = update_where (has_key key) (λ e. record e { last_seen = now }) l.buckets;
  }

  -- A limiter is a pointer: what Allow does to it is done to the entry that the map has.
  unfoldable pub store : Text → B → KeyedRateLimiter B → KeyedRateLimiter B
  store key lim l = record l {
    buckets = update_where (has_key key) (λ e. record e { lim = lim }) l.buckets;
  }

module _ {B : Type 0} (rate : RateLimiter B) where
  -- newKeyedRateLimiter: a divisor of time.Hour is at least 1.
  unfoldable pub new_keyed_rate_limiter : (Time → ℕ → Time) → ℕ → Time → KeyedRateLimiter B
  new_keyed_rate_limiter divide zero prune_after = record {
    interval = divide hour 1;
    burst = 1;
    prune_after = prune_after;
    buckets = [];
  }
  new_keyed_rate_limiter divide (suc n) prune_after = record {
    interval = divide hour (suc n);
    burst = suc n;
    prune_after = prune_after;
    buckets = [];
  }

  -- The new entry stands in the map, with no time, when the sweep runs.
  unfoldable pub add_bucket : Text → Time → KeyedRateLimiter B → B × KeyedRateLimiter B
  add_bucket key now l =
      let fresh = rate.new_limiter l.interval l.burst in
      let added = record l {
        buckets = record { key = key; lim = fresh; last_seen = 0 } ∷ l.buckets;
      } in
      (fresh, if ltb max_buckets (length added.buckets) then sweep_locked now added else added)

  abbrev pub bucket_found :
      Option (LimiterEntry B) → Text → Time → KeyedRateLimiter B → B × KeyedRateLimiter B
  bucket_found (some e) key now l = (e.lim, l)
  bucket_found none key now l = add_bucket key now l

  unfoldable pub entry : Text → Time → KeyedRateLimiter B → B × KeyedRateLimiter B
  entry key now l =
      let (lim, l') = bucket_found (first (has_key key) l.buckets) key now l in
      (lim, seen now key l')

  unfoldable pub allow : Text → Time → KeyedRateLimiter B → Bool × KeyedRateLimiter B
  allow key now l =
      let (lim, l') = entry key now l in
      let (allowed, lim') = rate.allow_at now lim in (allowed, store key lim' l')

  -- reserve: the delay, the limiter with the reservation, and the buckets that hold it
  unfoldable pub reserve : Text → Time → KeyedRateLimiter B → Time × (B × KeyedRateLimiter B)
  reserve key now l =
      let (lim, l') = entry key now l in
      let (delay, lim') = rate.reserve_at now lim in (delay, (lim', store key lim' l'))

  unfoldable pub retry_after : Text → Time → KeyedRateLimiter B → Time × KeyedRateLimiter B
  retry_after key now l =
      let (lim, l') = entry key now l in
      let (delay, lim') = rate.reserve_at now lim in (delay, store key (rate.cancel_at now lim') l')

  unfoldable pub key_count : KeyedRateLimiter B → ℕ
  key_count l = length l.buckets
