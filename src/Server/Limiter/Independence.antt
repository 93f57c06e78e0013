-- ===== src/Server/Limiter/Independence.antt =====
-- What the requests of one key do to the others, and what a full map does to a new key.
use xlistman.Prelude.{
  ◌-◌, ◌≡◌, ◌≢◌, ◌⊎◌, inl, inr, ◌<◌, refl, sym, ◌∙◌, Bool, true, false, not, Option, none, some,
  List, [], ◌∷◌, ltb, keep, first, update_where, length, All, Bool-cases, if◌then◌else◌, arith,
}
use xlistman.Strings.{Text, text_eq_sound, text_eq_ne}
use xlistman.Model.{Time}
use xlistman.Server.Limiter.{
  RateLimiter, LimiterEntry, KeyedRateLimiter, max_buckets, has_key, sweep_locked, seen, store,
  add_bucket, bucket_found, entry, allow,
}

module _ {A : Type 0} where
  keep-All : (p : A → Bool) (xs : List A) → All (λ x. p x ≡ true) xs → keep p xs ≡ xs
  unfolding keep
  keep-All p [] h = refl
  keep-All p (x ∷ xs) h = rw (h.0, keep-All p xs h.1) refl

  update_where-none :
      (p : A → Bool) (f : A → A) (xs : List A) → first p xs ≡ none → update_where p f xs ≡ xs
  unfolding update_where first
  update_where-none p f [] h = refl
  update_where-none p f (x ∷ xs) h = ground (arith, h, update_where-none p f xs)

  -- What is done where `p` holds is not seen by `q`, if what it is done to is not.
  keep-update_where :
      (q p : A → Bool) (f : A → A) (xs : List A)
      → ((x : A) → p x ≡ true → (q x ≡ false) × (q (f x) ≡ false))
      → keep q (update_where p f xs) ≡ keep q xs
  unfolding keep update_where
  keep-update_where q p f [] h = refl
  keep-update_where q p f (x ∷ xs) h = elim (Bool-cases (p x)) [
    | inl e ↦ rw (e, (h x e).0, (h x e).1) (keep-update_where q p f xs h)
    | inr e ↦ rw (e, keep-update_where q p f xs h) refl
  ]

  keep-keep : (q p : A → Bool) (xs : List A) → keep q (keep p xs) ≡ keep p (keep q xs)
  unfolding keep
  keep-keep q p [] = refl
  keep-keep q p (x ∷ xs) = ground (arith, keep-keep q p xs)

module _ {B : Type 0} where
  -- The entry was seen within the idle time.
  abbrev pub is_live : Time → Time → LimiterEntry B → Bool
  is_live now prune_after e = not (ltb e.last_seen (now - prune_after))

  other_key :
      (key other : Text) (e : LimiterEntry B)
      → key ≢ other
      → has_key key e ≡ true
      → has_key other e ≡ false
  other_key key other e n h = text_eq_ne e.key other λ f. n (sym (text_eq_sound e.key key h) ∙ f)

  -- The entries of a key, and those of them that were seen within the idle time.
  abbrev pub entries_of : Text → KeyedRateLimiter B → List (LimiterEntry B)
  entries_of key l = keep (has_key key) l.buckets

  abbrev pub live_entries : Text → Time → KeyedRateLimiter B → List (LimiterEntry B)
  live_entries key now l = keep (is_live now l.prune_after) (entries_of key l)

  seen-other :
      (key other : Text) (now : Time) (l : KeyedRateLimiter B)
      → key ≢ other
      → entries_of other (seen now key l) ≡ entries_of other l
  unfolding seen
  seen-other key other now l n =
      keep-update_where _ _ _ l.buckets
        λ e h. (other_key key other e n h, other_key key other e n h)

  store-other :
      (key other : Text) (lim : B) (l : KeyedRateLimiter B)
      → key ≢ other
      → entries_of other (store key lim l) ≡ entries_of other l
  unfolding store
  store-other key other lim l n =
      keep-update_where _ _ _ l.buckets
        λ e h. (other_key key other e n h, other_key key other e n h)

module _ {B : Type 0} (rate : RateLimiter B) where
  -- The entries of `other` stay, all or the live ones.
  abbrev Stay : Text → Time → KeyedRateLimiter B → KeyedRateLimiter B → Type 0
  Stay other now l l' =
      (entries_of other l' ≡ entries_of other l) ⊎ (entries_of other l' ≡ live_entries other now l)

  swept_if-Stay :
      (b : Bool) (key other : Text) (now : Time) (e : LimiterEntry B) (l : KeyedRateLimiter B)
      → has_key other e ≡ false
      → Stay other now l (
          if b
          then sweep_locked now (record l { buckets = e ∷ l.buckets })
          else record l { buckets = e ∷ l.buckets })
  unfolding sweep_locked keep
  swept_if-Stay true key other now e l h =
      inr (keep-keep (has_key other) (is_live now l.prune_after) (e ∷ l.buckets) ∙ rw h refl)
  swept_if-Stay false key other now e l h = inl (rw h refl)

  found-Stay :
      (o : Option (LimiterEntry B)) (key other : Text) (now : Time) (l : KeyedRateLimiter B)
      → key ≢ other
      → Stay other now l (bucket_found rate o key now l).1
  unfolding add_bucket
  found-Stay (some e) key other now l n = inl refl
  found-Stay none key other now l n = swept_if-Stay _ key other now _ l (text_eq_ne key other n)

  -- The zero time is not live.
  zero_idle : (now p : Time) → p < now → ltb 0 (now - p) ≡ true
  zero_idle now p h = ground (arith, h)

  add_bucket-crowded :
      (key : Text) (now : Time) (l : KeyedRateLimiter B)
      → l.prune_after < now
      → length l.buckets ≡ max_buckets
      → All (λ (e : LimiterEntry B). is_live now l.prune_after e ≡ true) l.buckets
      → add_bucket rate key now l ≡ (rate.new_limiter l.interval l.burst, l)
  unfolding add_bucket sweep_locked keep
  add_bucket-crowded key now l h k live =
      rw (k, zero_idle now l.prune_after h, keep-All (is_live now l.prune_after) l.buckets live)
        refl

-- A request of one key leaves the buckets of every other key as they are, with what is left in
-- them, but that it may delete those that were not seen within the idle time.
allow-other :
    {B : Type 0} (rate : RateLimiter B) (key other : Text) (now : Time) (l : KeyedRateLimiter B)
    → key ≢ other
    → (entries_of other (allow rate key now l).1 ≡ entries_of other l)
      ⊎ (entries_of other (allow rate key now l).1 ≡ live_entries other now l)
unfolding allow entry
allow-other rate key other now l n =
    rw (store-other key other _ _ n)
      (rw (seen-other key other now _ n) (found-Stay rate _ key other now l n))

-- While 4096 buckets are live, a key that has none never gets one: each of its requests is
-- decided by a new limiter, and leaves everything as it was.
pub allow-crowded :
    {B : Type 0} (rate : RateLimiter B) (key : Text) (now : Time) (l : KeyedRateLimiter B)
    → l.prune_after < now
    → length l.buckets ≡ max_buckets
    → All (λ (e : LimiterEntry B). is_live now l.prune_after e ≡ true) l.buckets
    → first (has_key key) l.buckets ≡ none
    → allow rate key now l ≡ ((rate.allow_at now (rate.new_limiter l.interval l.burst)).0, l)
unfolding allow entry seen store
allow-crowded {B} rate key now l h k live new =
    rw
      (
        new,
        add_bucket-crowded rate key now l h k live,
        update_where-none (has_key key) (λ (e : LimiterEntry B). record e { last_seen = now })
            l.buckets new,
        update_where-none (has_key key) _ l.buckets new,
      )
      refl
