-- ===== src/Queue/Digest/Once.antt =====
-- Of two workers that compile the same digest, one sends it.
use xlistman.Prelude.{
  ℕ, ◌≡◌, refl, Bool, false, ◌&&◌, ◌<◌, Option, none, some, List, [], ◌∷◌, ◌==◌, any, update_where,
  arith,
}
use xlistman.Strings.{Text}
use xlistman.Result.{ok}
use xlistman.Model.{Time, MailingList}
use xlistman.Env.{Env}
use xlistman.Effects.Tables.{Db, update}
use xlistman.Effects.{healthy, statement, wrap, pure, ◌>>=◌}
use xlistman.Store.Access.{find_all}
use xlistman.Store.Archive.{watermark_stands, advance_digest_watermark, list_archive_since}
use xlistman.Queue.Digest.{digest_list}

-- Before the time `t`, as the watermark of a list that is due.
abbrev pub IsBefore : Option Time → Time → Type 0
IsBefore none t = Unit
IsBefore (some from) t = from < t

abbrev stands : ℕ → Option Time → MailingList → Bool
stands id from l = l.id == id && watermark_stands from l.last_digest_sent_at

advanced :
    (id : ℕ) (from : Option Time) (to : Time) (ls : List MailingList)
    → IsBefore from to
    → any
        (stands id from)
        (update_where (stands id from) (λ l. record l { last_digest_sent_at = some to }) ls)
      ≡ false
unfolding any update_where
advanced id from to [] h = refl
advanced id none to (l ∷ ls) h = ground (arith, advanced id none to ls h)
advanced id (some f) to (l ∷ ls) h = ground (arith, h, advanced id (some f) to ls h)

update_where-none :
    {A : Type 0} (p : A → Bool) (f : A → A) (xs : List A)
    → any p xs ≡ false
    → update_where p f xs ≡ xs
unfolding any update_where
update_where-none p f [] h = refl
update_where-none p f (x ∷ xs) h = ground (arith, h, update_where-none p f xs)

lost :
    (env : Env) (l : MailingList) (t : Time) (d : Db) (clock : Time) (token_of : ℕ → Text) (n : ℕ)
    → any (stands l.id l.last_digest_sent_at) d.lists.rows ≡ false
    → digest_list env l t (healthy d clock token_of n) ≡ (ok tt, healthy d clock token_of n)
unfolding digest_list wrap pure ◌>>=◌ statement list_archive_since advance_digest_watermark find_all
    update
lost env l t d clock token_of n h =
    rw
      (
        h,
        update_where-none (stands l.id l.last_digest_sent_at)
            (λ l. record l { last_digest_sent_at = some t }) d.lists.rows h,
      )
      refl

-- Two runs of the worker may compile the digest of one list from the same watermark. As soon as
-- one has moved the watermark to the time of its run, which lies after the old watermark, the
-- other queues nothing and changes nothing, at whatever time it gets there and whatever else was
-- changed between, the table of lists apart. The database refuses nothing.
pub digest_list-once :
    (env : Env) (l : MailingList) (t t' : Time) (d d' : Db) (clock clock' : Time)
    (token_of : ℕ → Text) (n n' : ℕ)
    → IsBefore l.last_digest_sent_at t
    → d'.lists
      ≡ (advance_digest_watermark l.id l.last_digest_sent_at t
          (healthy d clock token_of n)).1.db.lists
    → digest_list env l t' (healthy d' clock' token_of n') ≡ (ok tt, healthy d' clock' token_of n')
unfolding advance_digest_watermark statement update
digest_list-once env l t t' d d' clock clock' token_of n n' h e =
    lost env l t' d' clock' token_of n'
      (rw e (advanced l.id l.last_digest_sent_at t d.lists.rows h))
