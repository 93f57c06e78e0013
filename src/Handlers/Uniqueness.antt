-- ===== src/Handlers/Uniqueness.antt =====
-- A subscriber has at most one subscription to a list.
use xlistman.Prelude.{
  ℕ, ◌≡◌, refl, Bool, true, false, List, [], ◌∷◌, ◌++◌, any, update_where, DistinctBy,
  DistinctBy-keep, if◌then◌else◌, arith, Bool-cases, inl, inr,
}
use xlistman.Strings.{Text}
use xlistman.Model.{Subscription}
use xlistman.Effects.Tables.{Table, insert, update, delete}
use xlistman.Effects.{World}
use xlistman.Effects.Keeps.{Relation, IsPreorder, Keeps, Keeps-statement, Keeps-bind, Keeps-now}
use xlistman.Env.{Env}
use xlistman.Store.Access.{subscriptions, create, update_rows, delete_rows}
use xlistman.Store.Members.{
  of_member, create_subscription, update_subscription_delivery, set_subscription_status,
  reenable_subscription, confirm_subscription, increment_bounce_count, delete_subscription,
}
use xlistman.Handlers.Rules.{StoreKeeps}
use xlistman.Handlers.Frames.{MemberKeeps, store_keeps, log_keeps}
use xlistman.Handlers.Inbound.{process_recipient-Keeps}
use xlistman.Lmtp.Handlers.{process_recipient}

abbrev pub is_member : ℕ → ℕ → List Subscription → Bool
is_member l s rows = any (of_member l s) rows

-- No two rows are of the same list and the same subscriber.
abbrev pub Distinct : List Subscription → Type 0
Distinct = DistinctBy (λ x. of_member x.list_id x.subscriber_id)

abbrev SameKeys : (Subscription → Subscription) → Type 0
SameKeys f =
    (x : Subscription) → ((f x).list_id ≡ x.list_id) × ((f x).subscriber_id ≡ x.subscriber_id)

is_member-update_where :
    (l s : ℕ) (p : Subscription → Bool) (f : Subscription → Subscription)
    → SameKeys f
    → (xs : List Subscription) → is_member l s (update_where p f xs) ≡ is_member l s xs
unfolding any update_where
is_member-update_where l s p f k [] = refl
is_member-update_where l s p f k (x ∷ xs) = ground (arith, k x, is_member-update_where l s p f k xs)

is_member-append :
    (l s : ℕ) (xs : List Subscription) (y : Subscription)
    → is_member l s xs ≡ false
    → of_member l s y ≡ false
    → is_member l s (xs ++ y ∷ []) ≡ false
unfolding any
is_member-append l s [] y h k = ground (arith, k)
is_member-append l s (x ∷ xs) y h k = ground (arith, h, k, is_member-append l s xs y)

if-SameKeys :
    (b : Bool) (f : Subscription → Subscription) → SameKeys f → SameKeys (λ x. if b then f x else x)
if-SameKeys true f k x = k x
if-SameKeys false f k x = (refl, refl)

Distinct-update_where :
    (p : Subscription → Bool) (f : Subscription → Subscription)
    → SameKeys f
    → (xs : List Subscription) → Distinct xs
    → Distinct (update_where p f xs)
unfolding update_where
Distinct-update_where p f k [] h = tt
Distinct-update_where p f k (x ∷ xs) (h, r) = (
  rw
      (
        (if-SameKeys (p x) f k x).0,
        (if-SameKeys (p x) f k x).1,
        is_member-update_where x.list_id x.subscriber_id p f k xs,
      )
      h,
  Distinct-update_where p f k xs r,
)

Distinct-append :
    (xs : List Subscription) (y : Subscription)
    → Distinct xs
    → is_member y.list_id y.subscriber_id xs ≡ false
    → Distinct (xs ++ y ∷ [])
unfolding any
Distinct-append [] y h k = (refl, tt)
Distinct-append (x ∷ xs) y (h, r) k = (
  is_member-append x.list_id x.subscriber_id xs y h (ground (arith, k)),
  Distinct-append xs y r (ground (arith, k)),
)

Distinct-insert :
    (l s : ℕ) (make : ℕ → Subscription) (t : Table Subscription)
    → ((id : ℕ) → ((make id).list_id ≡ l) × ((make id).subscriber_id ≡ s))
    → Distinct t.rows
    → Distinct (insert (of_member l s) make t).1.rows
unfolding insert
Distinct-insert l s make t k h = elim (Bool-cases (is_member l s t.rows)) [
  | inl e ↦ rw e h
  | inr e ↦
      rw e (Distinct-append t.rows (make t.next_id) h (rw ((k t.next_id).0, (k t.next_id).1) e))
]

abbrev pub DistinctStays : Relation
DistinctStays d e = Distinct d.subscriptions.rows → Distinct e.subscriptions.rows

instance distinct_stays : IsPreorder DistinctStays
distinct_stays = record { stay = λ d h. h; step = λ d e f p q h. q (p h) }

update-Keeps :
    (p : Subscription → Bool) (f : Subscription → Subscription)
    → SameKeys f
    → Keeps DistinctStays (update_rows subscriptions p f)
unfolding update_rows update
update-Keeps p f k = Keeps-statement _ (λ d h. Distinct-update_where p f k d.subscriptions.rows h)

member_keeps : MemberKeeps DistinctStays
unfolding create_subscription update_subscription_delivery set_subscription_status
    reenable_subscription confirm_subscription increment_bounce_count delete_subscription create
    delete_rows delete
member_keeps = record {
  create_keeps = λ l s. Keeps-bind _ _ Keeps-now (λ t.
      Keeps-statement _ (λ d h. Distinct-insert l s _ d.subscriptions (λ id. (refl, refl)) h));
  delivery_keeps = λ id mode. update-Keeps _ _ (λ x. (refl, refl));
  status_keeps = λ id status. update-Keeps _ _ (λ x. (refl, refl));
  reenable_keeps = λ id. update-Keeps _ _ (λ x. (refl, refl));
  confirm_keeps = λ id status. Keeps-bind _ _ Keeps-now (λ t. update-Keeps _ _ (λ x. (refl, refl)));
  increment_keeps = λ id. update-Keeps _ _ (λ x. (refl, refl));
  delete_keeps = λ l s. Keeps-statement _ (λ d h. DistinctBy-keep _ _ d.subscriptions.rows h);
}

uniqueness_keeps : StoreKeeps DistinctStays
uniqueness_keeps =
    store_keeps
      (record { of_subscribers = λ t d h. h; of_held = λ t d h. h; of_tokens = λ t d h. h })
      member_keeps
      (log_keeps (record {
        of_queue = λ make d h. h;
        of_archive = λ make d h. h;
        of_index = λ rows d h. h;
        of_audit = λ make d h. h;
      }))

-- When no subscriber has two subscriptions to one list, that is so after any message for any
-- address, whatever statements the database refuses.
pub process_recipient-Distinct :
    (env : Env) (rcpt raw : Text) (w : World)
    → Distinct w.db.subscriptions.rows
    → Distinct (process_recipient env rcpt raw w).1.db.subscriptions.rows
process_recipient-Distinct env rcpt raw w h =
    (process_recipient-Keeps uniqueness_keeps env rcpt raw).at w h
