-- ===== src/Admin/Roles/LastOwner.antt =====
-- A list that has an owner keeps one.
use xlistman.Prelude.{
  ℕ, ◌≡◌, refl, sym, subst, Bool, true, false, not, List, [], ◌∷◌, ◌==◌, any, keep, DistinctBy,
  DistinctBy-keep, if◌then◌else◌, arith, Bool-cases, inl, inr,
}
use xlistman.Strings.{Text, codes}
use xlistman.Result.{said}
use xlistman.Model.{MailingList, RoleHolder, AuditActor, Action, role_revoke}
use xlistman.Effects.Tables.{Db, delete, select_all}
use xlistman.Effects.{World, raise}
use xlistman.Effects.Keeps.{
  Relation, IsPreorder, Keeps, Keeps-bind, Keeps-raise, Keeps-statement, Keeps-pure, Keeps-now,
  Keeps-wrap, Keeps-reading, statement_keeps, test_keeps,
}
use xlistman.Store.Access.{owners, create, find_all, delete_rows}
use xlistman.Store.Roles.{holds, list_role, remove_role, remove_owner}
use xlistman.Store.Audit.{create_audit_event}
use xlistman.Pipeline.Moderation.{record_audit}
use xlistman.Handlers.Rules.{get_list_by_id-Keeps, get_subscriber_by_id-Keeps}
use xlistman.Admin.Roles.{
  ListRole, role_owner, role_moderator, is_last_owner, revoke, revoke_role, role_text,
}

abbrev pub has_owner : ℕ → List RoleHolder → Bool
has_owner l rows = any (λ r. r.list_id == l) rows

-- The unique index of the table on the list and the subscriber.
abbrev pub DistinctHolders : List RoleHolder → Type 0
DistinctHolders = DistinctBy (λ r. holds r.list_id r.subscriber_id)

keep-none :
    (l : ℕ) (rows : List RoleHolder)
    → has_owner l rows ≡ false
    → keep (λ r. r.list_id == l) rows ≡ []
unfolding any keep
keep-none l [] h = refl
keep-none l (x ∷ xs) h = ground (arith, keep-none l xs)

has_owner-keep :
    (k l id : ℕ) (rows : List RoleHolder)
    → any (holds l id) rows ≡ false
    → has_owner k (keep (λ r. not (holds l id r)) rows) ≡ has_owner k rows
unfolding any keep
has_owner-keep k l id [] h = refl
has_owner-keep k l id (x ∷ xs) h = ground (arith, h, has_owner-keep k l id xs)

other_owner :
    (k l id : ℕ) (rows : List RoleHolder)
    → (k == l) ≡ false
    → has_owner k (keep (λ r. not (holds l id r)) rows) ≡ has_owner k rows
unfolding any keep
other_owner k l id [] h = refl
other_owner k l id (x ∷ xs) h = ground (arith, h, other_owner k l id xs)

holds-keys :
    (l id : ℕ) (x : RoleHolder) → holds l id x ≡ true → (x.list_id ≡ l) × (x.subscriber_id ≡ id)
holds-keys l id x h = (ground (arith, h), ground (arith, h))

first_holds :
    (l id : ℕ) (x : RoleHolder) (xs : List RoleHolder)
    → holds l id x ≡ true
    → any (holds x.list_id x.subscriber_id) xs ≡ false
    → any (holds l id) xs ≡ false
first_holds l id x xs h n = let (p, q) = holds-keys l id x h in rw (sym p, sym q) n

sole_owner :
    (l id : ℕ) (x : RoleHolder) (b : Bool)
    → holds l id x ≡ true
    → is_last_owner (x ∷ []) id ≡ false
    → b ≡ true
unfolding is_last_owner
sole_owner l id x b h n = ground (arith, h, n)

another_owner :
    (l id : ℕ) (x : RoleHolder) (xs : List RoleHolder)
    → holds l id x ≡ true
    → is_last_owner (x ∷ keep (λ r. r.list_id == l) xs) id ≡ false
    → has_owner l xs ≡ true
another_owner l id x xs h n = elim (Bool-cases (has_owner l xs)) [
  | inl e ↦ e
  | inr e ↦
      sole_owner l id x _ h (subst (λ ys. is_last_owner (x ∷ ys) id ≡ false) (keep-none l xs e) n)
]

remaining_owner :
    (l id : ℕ) (rows : List RoleHolder)
    → DistinctHolders rows
    → is_last_owner (keep (λ r. r.list_id == l) rows) id ≡ false
    → has_owner l rows ≡ true
    → has_owner l (keep (λ r. not (holds l id r)) rows) ≡ true
unfolding any keep
remaining_owner l id [] d h o = o
remaining_owner l id (x ∷ xs) (n, d) h o = elim (Bool-cases (holds l id x)) [
  | inl e ↦
      ground (
        arith,
        e,
        another_owner l id x xs e,
        first_holds l id x xs e n,
        has_owner-keep l l id xs,
        h,
      )
  | inr e ↦ ground (arith, e, h, o, remaining_owner l id xs d)
]

-- What an action leaves of the owners: the unique index, and an owner for each list that had one.
abbrev pub OwnersStay : Relation
OwnersStay d e =
    DistinctHolders d.owners.rows
    → DistinctHolders e.owners.rows
      × ((l : ℕ) → has_owner l d.owners.rows ≡ true → has_owner l e.owners.rows ≡ true)

instance owners_stay : IsPreorder OwnersStay
owners_stay = record {
  stay = λ d h. (h, λ l o. o);
  step = λ d e f p q h. let (h', p') = p h in let (h'', q') = q h' in (h'', λ l o. q' l (p' l o));
}

remove_one :
    (l id : ℕ) (d : Db)
    → is_last_owner (keep (λ r. r.list_id == l) d.owners.rows) id ≡ false
    → OwnersStay d (owners.put (delete (holds l id) d.owners) d)
unfolding delete
remove_one l id d n h = (
  DistinctBy-keep _ _ d.owners.rows h,
  λ k o.
      ground (arith, o, n, h, remaining_owner l id d.owners.rows, other_owner k l id d.owners.rows),
)

remove_unless_last :
    (l id : ℕ) (w : World)
    → OwnersStay w.db
        ((if is_last_owner (keep (λ r. r.list_id == l) w.db.owners.rows) id
            then raise (said (codes "cannot remove the last owner"))
            else remove_owner l id)
          w).1.db
unfolding raise remove_role delete_rows
remove_unless_last l id w =
    test_keeps OwnersStay (is_last_owner (keep (λ r. r.list_id == l) w.db.owners.rows) id) _ _ w
      (λ _. owners_stay.stay w.db)
      (λ e. statement_keeps OwnersStay owners_stay _ w.faults w refl (remove_one l id w.db e))

revoke_owner-Keeps : (l id : ℕ) → Keeps OwnersStay (revoke role_owner l id)
unfolding revoke list_role find_all select_all
revoke_owner-Keeps l id =
    Keeps-reading (λ d. keep (λ r. r.list_id == l) d.owners.rows) _ (remove_unless_last l id)

revoke-Keeps : (role : ListRole) (l id : ℕ) → Keeps OwnersStay (revoke role l id)
unfolding revoke remove_role delete_rows
revoke-Keeps role_owner l id = revoke_owner-Keeps l id
revoke-Keeps role_moderator l id = Keeps-statement _ (λ d h. (h, λ k o. o))
revoke-Keeps (ListRole.other t) l id = Keeps-raise _

record_audit-Keeps :
    (l : MailingList) (action : Action) (actor : AuditActor) (target detail : Text)
    → Keeps OwnersStay (record_audit l action actor target detail)
unfolding record_audit create_audit_event create
record_audit-Keeps l action actor target detail = Keeps-bind _ _ Keeps-now (λ t.
    Keeps-wrap _ _ (Keeps-bind _ _ (Keeps-statement _ (λ d h. (h, λ k o. o))) (λ _. Keeps-pure tt)))

-- RevokeRole never takes the last owner from a list, of whatever list and subscriber the role is
-- revoked and whatever statements the database refuses: where no subscriber owns a list twice,
-- which the unique index sees to, that stays so, and each list that had an owner has one.
pub revoke_role-OwnersStay :
    (list_id subscriber_id : ℕ) (role : ListRole) (actor : AuditActor) (w : World)
    → DistinctHolders w.db.owners.rows
    → DistinctHolders (revoke_role list_id subscriber_id role actor w).1.db.owners.rows
      × ((l : ℕ)
          → has_owner l w.db.owners.rows ≡ true
          → has_owner l (revoke_role list_id subscriber_id role actor w).1.db.owners.rows ≡ true)
unfolding revoke_role
revoke_role-OwnersStay list_id id role actor w h =
    (Keeps-bind _ _ (get_list_by_id-Keeps list_id) λ l.
        Keeps-bind _ _ (get_subscriber_by_id-Keeps id) λ sub.
          Keeps-bind _ _ (revoke-Keeps role list_id id)
            λ _. record_audit-Keeps l role_revoke actor sub.email (role_text role)).at
      w h
