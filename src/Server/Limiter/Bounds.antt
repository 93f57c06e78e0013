-- ===== src/Server/Limiter/Bounds.antt =====
-- How many buckets there are, and what becomes of a key when there is no room for it.
use xlistman.Prelude.{
  ◌-◌, ◌≡◌, ◌∙◌, ◌≤◌, ◌<◌, refl, Bool, not, Option, none, some, List, [], ◌∷◌, ltb, keep,
  update_where, length, length-keep, All, arith,
}
use xlistman.Strings.{Text}
use xlistman.Model.{Time}
use xlistman.Server.Limiter.{
  RateLimiter, LimiterEntry, KeyedRateLimiter, max_buckets, has_key, sweep_locked, seen, store,
  add_bucket, bucket_found, entry, allow, reserve, retry_after,
}

length-update_where :
    {A : Type 0} (p : A → Bool) (f : A → A) (xs : List A) → length (update_where p f xs) ≡ length xs
unfolding update_where
length-update_where p f [] = refl
length-update_where p f (x ∷ xs) = omega (arith, length-update_where p f xs)

module _ {B : Type 0} (rate : RateLimiter B) where
  added-bounded :
      (key : Text) (now : Time) (l : KeyedRateLimiter B)
      → l.prune_after < now
      → length l.buckets ≤ max_buckets
      → length (add_bucket rate key now l).1.buckets ≤ max_buckets
  unfolding add_bucket sweep_locked keep
  added-bounded key now l h k = ground (
    arith,
    h,
    k,
    length-keep (λ (e : LimiterEntry B). not (ltb e.last_seen (now - l.prune_after))) l.buckets,
  )

  found-bounded :
      (o : Option (LimiterEntry B)) (key : Text) (now : Time) (l : KeyedRateLimiter B)
      → l.prune_after < now
      → length l.buckets ≤ max_buckets
      → length (bucket_found rate o key now l).1.buckets ≤ max_buckets
  found-bounded (some e) key now l h k = k
  found-bounded none key now l h k = added-bounded key now l h k

  entry-bounded :
      (key : Text) (now : Time) (l : KeyedRateLimiter B)
      → l.prune_after < now
      → length l.buckets ≤ max_buckets
      → length (entry rate key now l).1.buckets ≤ max_buckets
  unfolding entry seen
  entry-bounded key now l h k =
      rw
        (length-update_where (has_key key) (λ (e : LimiterEntry B). record e { last_seen = now }) _)
        (found-bounded _ key now l h k)

  length-store :
      (key : Text) (lim : B) (l : KeyedRateLimiter B)
      → length (store key lim l).buckets ≡ length l.buckets
  unfolding store
  length-store key lim l = length-update_where (has_key key) _ l.buckets

  entry-prune_after :
      (o : Option (LimiterEntry B)) (key : Text) (now : Time) (l : KeyedRateLimiter B)
      → (bucket_found rate o key now l).1.prune_after ≡ l.prune_after
  unfolding add_bucket sweep_locked
  entry-prune_after (some e) key now l = refl
  entry-prune_after none key now l = ground arith

  -- What the server asks of a limiter, for a key and at a time; a reservation is cancelled by what Cancel
  -- makes of its limiter.
  pub data Call : Type 0 where
    asks_allow asks_reserve asks_retry_after : Text → Time → Call
    cancels : Text → Time → B → Call

  abbrev pub time_of : Call → Time
  time_of (asks_allow key now) = now
  time_of (asks_reserve key now) = now
  time_of (asks_retry_after key now) = now
  time_of (cancels key now lim) = now

  abbrev pub after_call : Call → KeyedRateLimiter B → KeyedRateLimiter B
  after_call (asks_allow key now) l = (allow rate key now l).1
  after_call (asks_reserve key now) l = (reserve rate key now l).1.1
  after_call (asks_retry_after key now) l = (retry_after rate key now l).1
  after_call (cancels key now lim) l = store key (rate.cancel_at now lim) l

  call-bounded :
      (c : Call) (l : KeyedRateLimiter B)
      → l.prune_after < time_of c
      → length l.buckets ≤ max_buckets
      → length (after_call c l).buckets ≤ max_buckets
  unfolding allow reserve retry_after
  call-bounded (asks_allow key now) l h k =
      rw (length-store key _ (entry rate key now l).1) (entry-bounded key now l h k)
  call-bounded (asks_reserve key now) l h k =
      rw (length-store key _ (entry rate key now l).1) (entry-bounded key now l h k)
  call-bounded (asks_retry_after key now) l h k =
      rw (length-store key _ (entry rate key now l).1) (entry-bounded key now l h k)
  call-bounded (cancels key now lim) l h k = rw (length-store key (rate.cancel_at now lim) l) k

  call-prune_after :
      (c : Call) (l : KeyedRateLimiter B) → (after_call c l).prune_after ≡ l.prune_after
  unfolding allow reserve retry_after store entry seen
  call-prune_after (asks_allow key now) l = entry-prune_after _ key now l
  call-prune_after (asks_reserve key now) l = entry-prune_after _ key now l
  call-prune_after (asks_retry_after key now) l = entry-prune_after _ key now l
  call-prune_after (cancels key now lim) l = refl

  abbrev pub after_calls : List Call → KeyedRateLimiter B → KeyedRateLimiter B
  after_calls [] l = l
  after_calls (c ∷ calls) l = after_calls calls (after_call c l)

  bounded_after :
      (prune_after : Time) (calls : List Call) (l : KeyedRateLimiter B)
      → l.prune_after ≡ prune_after
      → All (λ c. prune_after < time_of c) calls
      → length l.buckets ≤ max_buckets
      → length (after_calls calls l).buckets ≤ max_buckets
  bounded_after p [] l e h k = k
  bounded_after p (c ∷ calls) l e h k =
      bounded_after p calls (after_call c l) (call-prune_after c l ∙ e) h.1
        (call-bounded c l (rw e h.0) k)

-- Whatever is asked of a limiter, by Allow, by Reserve, by retryAfter or by cancelling a reservation, in
-- whatever order and for whatever keys: a limiter that starts with no bucket never has more than 4096,
-- if the clock is past the idle time after which buckets are pruned (counted from the zero time).
pub after_calls-max_buckets :
    {B : Type 0} (rate : RateLimiter B) (calls : List (Call rate)) (l : KeyedRateLimiter B)
    → l.buckets ≡ []
    → All (λ c. l.prune_after < time_of rate c) calls
    → length (after_calls rate calls l).buckets ≤ max_buckets
after_calls-max_buckets rate calls l e h =
    bounded_after rate l.prune_after calls l refl h (rw e (omega arith))
