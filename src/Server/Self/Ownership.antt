-- ===== src/Server/Self/Ownership.antt =====
-- A subscriber changes subscriptions of their own only.
use xlistman.Prelude.{
  ℕ, ◌≡◌, refl, sym, ap, subst, ◌∙◌, Bool, true, false, not, Option, none, some, List, [], ◌∷◌,
  ◌==◌, keep, first, update_where, any, DistinctBy, DistinctBy-keep, Bool-cases, inl, inr,
  if◌then◌else◌, arith,
}
use xlistman.Strings.{Text, codes}
use xlistman.Result.{Result, ok, err, Error}
use xlistman.Effects.Tables.{Db, Table, select, update, delete}
use xlistman.Effects.{World, M, ◌>>=◌, pure, attempt, statement}
use xlistman.Effects.Keeps.{IsPreorder, Keeps, Keeps-pure, statement_keeps, test_keeps}
use xlistman.Effects.Reads.{Reads-statement, Keeps-attempt-Reads}
use xlistman.Model.{Subscriber, Subscription, DeliveryMode}
use xlistman.Store.Access.{subscriptions, find_first, update_rows, delete_rows}
use xlistman.Store.Members.{
  get_subscription_by_id, update_subscription_delivery, reenable_subscription, delete_subscription,
}
use xlistman.Lmtp.Commands.{mode_of}
use xlistman.Server.Http.{ℤ, Request, Response, Web, path_parts, row_key}
use xlistman.Server.Self.{
  set_delivery_to, mode_given, handle_set_delivery, handle_re_enable, handle_unsubscribe_me,
  my_action, own_subscription, my_subscription_at, my_subscription_path, handle_my_subscription,
}

abbrev pub same_id : Subscription → Subscription → Bool
same_id a b = b.id == a.id

abbrev pub DistinctIds : List Subscription → Type 0
DistinctIds = DistinctBy same_id

-- The subscriptions of everybody else.
abbrev pub of_others : ℕ → List Subscription → List Subscription
of_others id rows = keep (λ x. not (x.subscriber_id == id)) rows

-- The rows keep their different keys, and those of everybody else stay as they are.
pub record OthersStay (id : ℕ) (d e : Db) : Type 0 where
  pub stay :
      DistinctIds d.subscriptions.rows
      → DistinctIds e.subscriptions.rows
        × (of_others id e.subscriptions.rows ≡ of_others id d.subscriptions.rows)

some_injective : {A : Type 0} (x y : A) → some x ≡ some y → x ≡ y
some_injective x y e = ground (arith, e)

instance others_order : {id : ℕ} → IsPreorder (OthersStay id)
others_order {id} = record {
  stay = λ d. record { stay = λ h. (h, refl) };
  step = λ d e f p q. record {
    stay = λ h. let (k, x) = p.stay h in let (m, y) = q.stay k in (m, y ∙ x);
  };
}

update_where-none :
    (k : ℕ) (f : Subscription → Subscription) (xs : List Subscription)
    → any (λ x. x.id == k) xs ≡ false
    → update_where (λ x. x.id == k) f xs ≡ xs
unfolding any update_where
update_where-none k f [] h = refl
update_where-none k f (x ∷ xs) h = ground (arith, h, update_where-none k f xs)

-- The change keeps the keys.
abbrev KeepsKeys : (Subscription → Subscription) → Type 0
KeepsKeys f = (x : Subscription) → ((f x).id ≡ x.id) × ((f x).subscriber_id ≡ x.subscriber_id)

any-updated :
    (k : ℕ) (f : Subscription → Subscription) (a : Subscription) (xs : List Subscription)
    → KeepsKeys f
    → any (same_id a) xs ≡ false
    → any (same_id a) (update_where (λ x. x.id == k) f xs) ≡ false
unfolding any update_where
any-updated k f a [] p h = h
any-updated k f a (x ∷ xs) p h = ground (arith, h, (p x).0, any-updated k f a xs p)

updated-Distinct :
    (k : ℕ) (f : Subscription → Subscription) (xs : List Subscription)
    → KeepsKeys f
    → DistinctIds xs
    → DistinctIds (update_where (λ x. x.id == k) f xs)
unfolding update_where
updated-Distinct k f [] p h = tt
updated-Distinct k f (x ∷ xs) p (h, hs) = elim (Bool-cases (x.id == k)) [
  | inl e ↦ rw (e, (p x).0) (rw (any-updated k f x xs p h) refl, updated-Distinct k f xs p hs)
  | inr e ↦ rw e (any-updated k f x xs p h, updated-Distinct k f xs p hs)
]

own_of :
    (id : ℕ) (x s : Subscription)
    → (s.subscriber_id == id) ≡ true
    → some x ≡ some s
    → (x.subscriber_id == id) ≡ true
own_of id x s own e = subst (λ y. (y.subscriber_id == id) ≡ true) (sym (some_injective x s e)) own

same_key :
    (x : Subscription) (k : ℕ) (xs : List Subscription)
    → (x.id == k) ≡ true
    → any (same_id x) xs ≡ false
    → any (λ y. y.id == k) xs ≡ false
same_key x k xs g h = subst (λ (i : ℕ). any (λ y. y.id == i) xs ≡ false) (ground (arith, g)) h

updated-others :
    (id k : ℕ) (f : Subscription → Subscription) (xs : List Subscription) (s : Subscription)
    → KeepsKeys f
    → DistinctIds xs
    → first (λ x. x.id == k) xs ≡ some s
    → (s.subscriber_id == id) ≡ true
    → of_others id (update_where (λ x. x.id == k) f xs) ≡ of_others id xs
unfolding update_where keep first
updated-others id k f [] s p h e own = refl
updated-others id k f (x ∷ xs) s p (h, hs) e own = elim (Bool-cases (x.id == k)) [
  | inl g ↦
      rw (g, (p x).1, own_of id x s own (rw g at e))
        (ap (of_others id) (update_where-none k f xs (same_key x k xs g h)))
  | inr g ↦ rw (g, updated-others id k f xs s p hs (rw g at e) own) refl
]

deleted-others :
    (id : ℕ) (p : Subscription → Bool) (xs : List Subscription)
    → ((x : Subscription) → p x ≡ true → (x.subscriber_id == id) ≡ true)
    → of_others id (keep (λ x. not (p x)) xs) ≡ of_others id xs
unfolding keep
deleted-others id p [] h = refl
deleted-others id p (x ∷ xs) h = elim (Bool-cases (p x)) [
  | inl e ↦ rw (e, h x e) (deleted-others id p xs h)
  | inr e ↦ rw (e, deleted-others id p xs h) refl
]

-- From this world on, the action leaves the subscriptions of everybody else alone.
record StaysAt {A : Type 0} (id : ℕ) (w : World) (m : M A) : Type 0 where
  others_stay : OthersStay id w.db (m w).1.db

module _ {A : Type 0} (id : ℕ) (w : World) where
  StaysAt-pure : (a : A) → StaysAt id w (pure a)
  unfolding pure
  StaysAt-pure a = record { others_stay = record { stay = λ h. (h, refl) } }

  StaysAt-if :
      (b : Bool) (m n : M A) → StaysAt id w m → StaysAt id w n → StaysAt id w (if b then m else n)
  StaysAt-if true m n h k = h
  StaysAt-if false m n h k = k

  -- A statement whose result is only answered to.
  StaysAt-statement :
      {B : Type 0} (f : Db → Result B × Db) (g : Result B → A)
      → OthersStay id w.db (f w.db).1
      → StaysAt id w (attempt (statement f) >>= λ r. pure (g r))
  unfolding attempt pure ◌>>=◌
  StaysAt-statement f g h = record {
    others_stay = statement_keeps (OthersStay id) others_order f w.faults w refl h;
  }

module _ (s : Subscriber) (web : Web) (subscr : Subscription) (w : World)
    (e : first (λ x. x.id == subscr.id) w.db.subscriptions.rows ≡ some subscr)
    (own : (subscr.subscriber_id == s.id) ≡ true) where
  update-StaysAt :
      (f : Subscription → Subscription) (g : Result Unit → Response)
      → KeepsKeys f
      → StaysAt s.id w
          (attempt (update_rows subscriptions (λ x. x.id == subscr.id) f) >>= λ r. pure (g r))
  unfolding update_rows update
  update-StaysAt f g p = StaysAt-statement s.id w _ g (record {
    stay = λ h. (
      updated-Distinct subscr.id f w.db.subscriptions.rows p h,
      updated-others s.id subscr.id f w.db.subscriptions.rows subscr p h e own,
    );
  })

  delivery-StaysAt : (mode : Option DeliveryMode) → StaysAt s.id w (set_delivery_to web subscr mode)
  unfolding update_subscription_delivery
  delivery-StaysAt none = StaysAt-pure s.id w _
  delivery-StaysAt (some mode) = update-StaysAt _ _ (λ x. (refl, refl))

  mode-StaysAt : (mode : Option Text) → StaysAt s.id w (mode_given web subscr mode)
  mode-StaysAt none = StaysAt-pure s.id w _
  mode-StaysAt (some mode) = delivery-StaysAt (mode_of mode)

  set_delivery-StaysAt : (r : Request) → StaysAt s.id w (handle_set_delivery web r subscr)
  unfolding handle_set_delivery
  set_delivery-StaysAt r = search (StaysAt-if, StaysAt-pure, mode-StaysAt)

  reenabled-StaysAt :
      (g : Result Unit → Response)
      → StaysAt s.id w (attempt (reenable_subscription subscr.id) >>= λ r. pure (g r))
  unfolding reenable_subscription
  reenabled-StaysAt g = update-StaysAt _ g (λ x. (refl, refl))

  re_enable-StaysAt : (r : Request) → StaysAt s.id w (handle_re_enable web r subscr)
  unfolding handle_re_enable
  re_enable-StaysAt r = search (StaysAt-if, StaysAt-pure, reenabled-StaysAt)

  deleted-StaysAt :
      (g : Result Unit → Response)
      → StaysAt s.id w
          (attempt (delete_subscription subscr.list_id subscr.subscriber_id) >>= λ r. pure (g r))
  unfolding delete_subscription delete_rows delete
  deleted-StaysAt g = StaysAt-statement s.id w _ g (record {
    stay = λ h. (
      DistinctBy-keep _ _ w.db.subscriptions.rows h,
      deleted-others s.id _ w.db.subscriptions.rows (λ x k. ground (arith, k, own)),
    );
  })

  unsubscribe-StaysAt : (r : Request) → StaysAt s.id w (handle_unsubscribe_me web r subscr)
  unfolding handle_unsubscribe_me
  unsubscribe-StaysAt r = search (StaysAt-if, StaysAt-pure, deleted-StaysAt)

  action-StaysAt : (action : Text) (r : Request) → StaysAt s.id w (my_action web action r subscr)
  unfolding my_action
  action-StaysAt action r =
      search
        (StaysAt-if, StaysAt-pure, set_delivery-StaysAt, re_enable-StaysAt, unsubscribe-StaysAt)

first_holds : {A : Type 0} (p : A → Bool) (xs : List A) (a : A) → first p xs ≡ some a → p a ≡ true
unfolding first
first_holds p [] a e = ground (arith, e)
first_holds p (x ∷ xs) a e = elim (Bool-cases (p x)) [
  | inl g ↦ subst (λ y. p y ≡ true) (some_injective x a (rw g at e)) g
  | inr g ↦ first_holds p xs a (rw g at e)
]

selected :
    {A : Type 0} (p : A → Bool) (t : Table A) (a : A) → select p t ≡ ok a → first p t.rows ≡ some a
unfolding select
selected p t a e = selected_from (first p t.rows) a e
  where
    selected_from :
        {A : Type 0} (o : Option A) (a : A)
        → (elim o [ none ↦ err Error.not_found | some x ↦ ok x ]) ≡ ok a
        → o ≡ some a
    selected_from none a e = ground (arith, e)
    selected_from (some x) a e = ground (arith, e)

module _ (s : Subscriber) (web : Web) where
  under_own_key :
      (key : ℕ) (subscr : Subscription) (w : World)
      → first (λ x. x.id == key) w.db.subscriptions.rows ≡ some subscr
      → first (λ x. x.id == subscr.id) w.db.subscriptions.rows ≡ some subscr
  under_own_key key subscr w e =
      let found : (subscr.id == key) ≡ true =
        first_holds (λ x. x.id == key) w.db.subscriptions.rows subscr e in
      subst (λ (i : ℕ). first (λ x. x.id == i) w.db.subscriptions.rows ≡ some subscr)
        (ground (arith, found)) e

  found_stays :
      (key : ℕ) (action : Text) (r : Request) (subscr : Subscription) (w : World)
      → first (λ x. x.id == key) w.db.subscriptions.rows ≡ some subscr
      → OthersStay s.id w.db (own_subscription web s action r (ok subscr) w).1.db
  found_stays key action r subscr w e =
      test_keeps (OthersStay s.id) (not (subscr.subscriber_id == s.id)) _
        (my_action web action r subscr) w (λ _. (StaysAt-pure s.id w _).others_stay)
        (λ own.
          (action-StaysAt s web subscr w (under_own_key key subscr w e) (ground (arith, own)) action
            r).others_stay)

  at_key-Keeps :
      (action : Text) (r : Request) (id : Option ℤ)
      → Keeps (OthersStay s.id) (my_subscription_at web s action r id)
  unfolding get_subscription_by_id find_first
  at_key-Keeps action r none = Keeps-pure _
  at_key-Keeps action r (some id) =
      Keeps-attempt-Reads (λ d. select (λ x. x.id == row_key id) d.subscriptions) _ _
        (Reads-statement _)
        (λ w subscr e.
          found_stays (row_key id) action r subscr w (selected _ w.db.subscriptions subscr e))
        (λ x. Keeps-pure _)

  path-Keeps :
      (parts : List Text) (r : Request)
      → Keeps (OthersStay s.id) (my_subscription_path web parts r s)
  path-Keeps [] r = Keeps-pure _
  path-Keeps (id ∷ []) r = Keeps-pure _
  path-Keeps (id ∷ action ∷ []) r = at_key-Keeps action r (web.parse_int id)
  path-Keeps (id ∷ action ∷ x ∷ rest) r = Keeps-pure _

-- Whatever request a signed-in subscriber makes about subscriptions, and whatever statements the
-- database refuses: if the keys of the subscriptions are all different, they stay so, and the
-- subscriptions of everybody else stay exactly as they are, in the same order.
pub handle_my_subscription-OthersStay :
    (web : Web) (r : Request) (s : Subscriber) (w : World)
    → DistinctIds w.db.subscriptions.rows
    → DistinctIds (handle_my_subscription web r s w).1.db.subscriptions.rows
      × (of_others s.id (handle_my_subscription web r s w).1.db.subscriptions.rows
          ≡ of_others s.id w.db.subscriptions.rows)
unfolding handle_my_subscription
handle_my_subscription-OthersStay web r s w =
    ((path-Keeps s web (path_parts (codes "/api/me/subscriptions/") r.path) r).at w).stay
