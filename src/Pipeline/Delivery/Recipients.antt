-- ===== src/Pipeline/Delivery/Recipients.antt =====
-- Who receives a post.
use xlistman.Prelude.{
  ℕ, ◌≡◌, refl, sym, subst, ◌∙◌, ap, Bool, true, false, ◌&&◌, Option, none, some, List, [], ◌∷◌,
  ◌++◌, ◌==◌, any, any-never, keep, first, All, append-nil, append_assoc, if◌then◌else◌, arith,
  Bool-cases, inl, inr, ==-refl,
}
use xlistman.Strings.{Text, text_eq, text_eq_refl}
use xlistman.Result.{Result, ok, err}
use xlistman.Model.{MailingList, Subscriber, Subscription, QueuedMessage}
use xlistman.Env.{Env}
use xlistman.Effects.Tables.{Db, Table, insert, select, select_all}
use xlistman.Effects.{World, M, ◌>>=◌, attempt, statement, for_each}
use xlistman.Effects.Keeps.{
  Relation, IsPreorder, Keeps, Keeps-statement, Keeps-bind, Keeps-pure, Keeps-attempt, Keeps-wrap,
  Keeps-now, Keeps-if,
}
use xlistman.Effects.Reads.{Reads-statement, Reads-wrap, Keeps-Reads, Keeps-attempt-Reads}
use xlistman.Store.Access.{create, find_first, find_all}
use xlistman.Store.Members.{get_subscriber_by_id, list_subscriptions}
use xlistman.Store.Queue.{enqueue}
use xlistman.Store.Archive.{archive_message, index_entry}
use xlistman.Pipeline.Delivery.{
  is_active, is_regular, deliver_modified, deliver_encoded, deliver_to, deliver_found, deliver_one,
  deliver_to_list,
}

-- An active subscription of this subscriber to this list, with regular delivery.
abbrev pub receives : ℕ → ℕ → Subscription → Bool
receives list_id subscriber_id s =
    (s.list_id == list_id && s.subscriber_id == subscriber_id)
    && (is_active s.status && is_regular s.delivery_mode)

-- The address is one of a subscriber with such a subscription.
abbrev pub is_recipient : ℕ → List Subscription → List Subscriber → Text → Bool
is_recipient list_id subs people address =
    any (λ s. text_eq s.email address && any (receives list_id s.id) subs) people

module _ (list_id : ℕ) (subs : List Subscription) (people : List Subscriber) where
  abbrev Tables : Db → Type 0
  Tables d = (d.subscriptions.rows ≡ subs) × (d.subscribers.rows ≡ people)

  -- The queue grows by messages to recipients only.
  abbrev pub Delivers : Relation
  Delivers d e =
      Tables d
      → Tables e
        × (more : List QueuedMessage) × (e.queue.rows ≡ d.queue.rows ++ more)
        × All (λ (q : QueuedMessage). is_recipient list_id subs people q.to_addr ≡ true) more

  All-append :
      {A : Type 0} (P : A → Type 0) (xs ys : List A) → All P xs → All P ys → All P (xs ++ ys)
  All-append P [] ys h k = k
  All-append P (x ∷ xs) ys (h, r) k = (h, All-append P xs ys r k)

  instance delivers : IsPreorder Delivers
  delivers = record {
    stay = λ d t. (t, [], sym (append-nil d.queue.rows), tt);
    step = λ d e f p q t.
        let (t', m, eq, all) = p t in
        let (t'', n, eq', all') = q t' in
        (t'', m ++ n, rw (eq', eq) (append_assoc d.queue.rows m n), All-append _ m n all all');
  }

  quiet :
      {A : Type 0} (f : Db → Result A × Db)
      → ((d : Db) → (f d).1.queue ≡ d.queue)
      → ((d : Db) → (f d).1.subscriptions ≡ d.subscriptions)
      → ((d : Db) → (f d).1.subscribers ≡ d.subscribers)
      → Keeps Delivers (statement f)
  quiet f p q r = Keeps-statement f (λ d (s, u). (
    (ap (λ t. t.rows) (q d) ∙ s, ap (λ t. t.rows) (r d) ∙ u),
    [],
    rw (p d) (sym (append-nil d.queue.rows)),
    tt,
  ))

  archive-Keeps :
      (l : ℕ) (id subject from body thread text : Text)
      → Keeps Delivers (archive_message l id subject from body thread text)
  unfolding archive_message create index_entry
  archive-Keeps l id subject from body thread text = Keeps-bind _ _ Keeps-now λ t.
      Keeps-bind _ _ (quiet _ (λ d. refl) (λ d. refl) (λ d. refl))
        λ e. quiet _ (λ d. refl) (λ d. refl) (λ d. refl)

  append_one :
      (make : ℕ → QueuedMessage) (d : Db)
      → ((id : ℕ) → is_recipient list_id subs people (make id).to_addr ≡ true)
      → Delivers d (record d { queue = (insert (λ _. false) make d.queue).1 })
  unfolding insert
  append_one make d h tables =
      (tables, make d.queue.next_id ∷ [], rw (any-never d.queue.rows) refl, (h d.queue.next_id, tt))

  enqueue-Keeps :
      (l : ℕ) (from to body envelope sender : Text)
      → is_recipient list_id subs people to ≡ true
      → Keeps Delivers (enqueue l from to body envelope sender)
  unfolding enqueue create
  enqueue-Keeps l from to body envelope sender h =
      Keeps-bind _ _ Keeps-now
        λ t. Keeps-bind _ _ (Keeps-statement _ (λ d. append_one _ d (λ id. h))) (λ _. Keeps-pure tt)

  module _ (env : Env) (l : MailingList) (sender raw : Text) where
    modified-Keeps :
        (email verp : Text) (o : Option Text)
        → is_recipient list_id subs people email ≡ true
        → Keeps Delivers (deliver_modified env l sender email verp o)
    modified-Keeps email verp none h = Keeps-pure tt
    modified-Keeps email verp (some m) h =
        Keeps-bind _ _ (Keeps-attempt _ (enqueue-Keeps _ _ _ _ _ _ h)) (λ _. Keeps-pure tt)

    encoded-Keeps :
        (email : Text) (r : Result Text)
        → is_recipient list_id subs people email ≡ true
        → Keeps Delivers (deliver_encoded env l sender raw email r)
    encoded-Keeps email (ok verp) h = modified-Keeps email verp _ h
    encoded-Keeps email (err _) h = Keeps-pure tt

    deliver_to-Keeps :
        (s : Subscriber)
        → is_recipient list_id subs people s.email ≡ true
        → Keeps Delivers (deliver_to env l sender raw s)
    unfolding deliver_to
    deliver_to-Keeps s h = Keeps-if _ _ _ (Keeps-pure tt) (encoded-Keeps s.email _ h)

    same_id :
        (id : ℕ) (x : Subscriber)
        → (x.id == id) ≡ true
        → any (receives list_id id) subs ≡ true
        → any (receives list_id x.id) subs ≡ true
    same_id id x c h =
        subst (λ n. any (receives list_id n) subs ≡ true)
          (let p : id ≡ x.id = ground (arith, c) in p) h

    found_recipient :
        (id : ℕ) (xs : List Subscriber) (s : Subscriber)
        → first (λ s. s.id == id) xs ≡ some s
        → any (receives list_id id) subs ≡ true
        → is_recipient list_id subs xs s.email ≡ true
    unfolding first any
    found_recipient id [] s e h = ground (arith, e)
    found_recipient id (x ∷ xs) s e h = elim (Bool-cases (x.id == id)) [
      | inl c ↦ ground (arith, c, e, text_eq_refl x.email, same_id id x c h)
      | inr c ↦ ground (arith, c, e, h, found_recipient id xs s)
    ]

    abbrev Receiving : Subscription → Type 0
    Receiving sub =
        is_active sub.status ≡ true
        → is_regular sub.delivery_mode ≡ true
        → any (receives list_id sub.subscriber_id) subs ≡ true

    selected :
        (p : Subscriber → Bool) (t : Table Subscriber) (s : Subscriber)
        → select p t ≡ ok s
        → first p t.rows ≡ some s
    unfolding select
    selected p t s e = ground (arith, e)

    looked_up-Keeps :
        (id : ℕ)
        → any (receives list_id id) subs ≡ true
        → Keeps Delivers (attempt (get_subscriber_by_id id) >>= deliver_found env l sender raw)
    unfolding get_subscriber_by_id find_first
    looked_up-Keeps id h =
        Keeps-attempt-Reads (λ d. select (λ s. s.id == id) d.subscribers) _ _ (Reads-statement _)
          (λ w s e t.
            (deliver_to-Keeps s (
                subst (λ xs. is_recipient list_id subs xs s.email ≡ true) t.1
                  (found_recipient id w.db.subscribers.rows s (selected _ w.db.subscribers s e)
                    h))).at
              w t)
          (λ e. Keeps-pure tt)

    when-Keeps :
        (b : Bool) (m n : M Unit)
        → (b ≡ true → Keeps Delivers m)
        → Keeps Delivers n
        → Keeps Delivers (if b then m else n)
    when-Keeps true m n h k = h refl
    when-Keeps false m n h k = k

    deliver_one-Keeps :
        (sub : Subscription) → Receiving sub → Keeps Delivers (deliver_one env l sender raw sub)
    unfolding deliver_one
    deliver_one-Keeps sub h =
        when-Keeps _ _ _
          (λ a. when-Keeps _ _ _ (λ r. looked_up-Keeps sub.subscriber_id (h a r)) (Keeps-pure tt))
          (Keeps-pure tt)

    loop-Keeps :
        (xs : List Subscription)
        → All Receiving xs
        → Keeps Delivers (for_each xs (deliver_one env l sender raw))
    unfolding for_each
    loop-Keeps [] h = Keeps-pure tt
    loop-Keeps (x ∷ xs) (h, r) = Keeps-bind _ _ (deliver_one-Keeps x h) (λ _. loop-Keeps xs r)

    All-Receiving :
        (xs : List Subscription)
        → ((p : Subscription → Bool) → any p xs ≡ true → any p subs ≡ true)
        → All Receiving (keep (λ s. s.list_id == list_id) xs)
    unfolding keep any
    All-Receiving [] into = tt
    All-Receiving (x ∷ xs) into = elim (Bool-cases (x.list_id == list_id)) [
      | inl c ↦ rw c (
        λ a r.
            into (receives list_id x.subscriber_id)
              (ground (arith, a, r, c, ==-refl x.subscriber_id)),
        All-Receiving xs (λ p h. into p (ground (arith, h))),
      )
      | inr c ↦ rw c (All-Receiving xs (λ p h. into p (ground (arith, h))))
    ]

module _ (env : Env) (l : MailingList) (sender raw : Text) where
  listed_at :
      (w : World) (subs : List Subscription) (people : List Subscriber) (xs : List Subscription)
      → keep (λ s. s.list_id == l.id) w.db.subscriptions.rows ≡ xs
      → Delivers l.id subs people w.db (for_each xs (deliver_one env l sender raw) w).1.db
  listed_at w subs people xs e t =
      (loop-Keeps l.id subs people env l sender raw xs (
          subst (All (Receiving l.id subs people env l sender raw)) e (
            subst
              (λ ys.
                All (Receiving l.id subs people env l sender raw)
                  (keep (λ s. s.list_id == l.id) ys))
              (sym t.0) (All-Receiving l.id subs people env l sender raw subs (λ p h. h))))).at
        w t

  deliver-Keeps :
      (subs : List Subscription) (people : List Subscriber)
      → Keeps (Delivers l.id subs people) (deliver_to_list env l sender raw)
  unfolding deliver_to_list list_subscriptions find_all select_all
  deliver-Keeps subs people =
      Keeps-bind ⦃o = delivers l.id subs people⦄ _ _
        (Keeps-wrap ⦃o = delivers l.id subs people⦄ _ _
          (archive-Keeps l.id subs people _ _ _ _ _ _ _))
        (λ _.
          Keeps-Reads ⦃o = delivers l.id subs people⦄
            (λ d. ok (keep (λ s. s.list_id == l.id) d.subscriptions.rows)) _ _
            (Reads-wrap _ _ _ (Reads-statement _))
            (λ w xs e. listed_at w subs people xs (ground (arith, e))))

  -- A post is queued for recipients only: behind the messages that were queued, delivery puts only
  -- messages to addresses of subscribers with an active subscription to the list and regular
  -- delivery, whatever statements the database refuses.
  pub deliver_to_list-recipients :
      (w : World)
      → (more : List QueuedMessage) × ((deliver_to_list env l sender raw w).1.db.queue.rows
          ≡ w.db.queue.rows ++ more)
        × All
            (λ (q : QueuedMessage).
              is_recipient l.id w.db.subscriptions.rows w.db.subscribers.rows q.to_addr ≡ true)
            more
  deliver_to_list-recipients w =
      let (t, more, e, all) =
        (deliver-Keeps w.db.subscriptions.rows w.db.subscribers.rows).at w (refl, refl) in
      (more, e, all)
