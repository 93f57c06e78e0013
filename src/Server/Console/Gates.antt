-- ===== src/Server/Console/Gates.antt =====
-- Who gets past the gates of the console.
pub mod Passing
use xlistman.Prelude.{
  ℕ, ◌≡◌, ◌⊎◌, inl, inr, refl, Bool, true, false, ◌&&◌, Option, none, some, List, ◌∷◌, ◌==◌, first,
  any, if◌then◌else◌, arith, [],
}
use xlistman.Strings.{Text, codes, text_eq}
use xlistman.Result.{ok}
use xlistman.Effects.Tables.{Db}
use xlistman.Effects.{World, healthy, M, ◌>>=◌, pure, attempt, statement}
use xlistman.Model.{Time, MailingList, Subscriber}
use xlistman.Store.Lists.{get_list, joined}
use xlistman.Store.Roles.{has_role}
use xlistman.Store.Auth.{get_web_settings}
use xlistman.Pipeline.Posting.{flag}
use xlistman.Server.Http.{Request, Response, json_error, not_found_page, path_parts}
use xlistman.Server.Access.{
  require_auth, for_caller, web_management_enabled, require_management, unauthorized,
}
use xlistman.Server.Access.Callers.{caller_of, authenticate-caller_of}
use xlistman.Server.Console.{
  ConsoleRoute, console_route, is_open_to_moderators, require_role, require_owner, gated,
  handle_console_list, console_list_endpoint,
}

abbrev pub owns : Db → MailingList → Subscriber → Bool
owns d l s = any (λ o. o.list_id == l.id && o.subscriber_id == s.id) d.owners.rows

abbrev pub moderates : Db → MailingList → Subscriber → Bool
moderates d l s = any (λ o. o.list_id == l.id && o.subscriber_id == s.id) d.moderators.rows

-- The parts of the console that moderators use: the overview and the held messages.
abbrev pub moderators_part : List Text → Bool
moderators_part [] = true
moderators_part (section ∷ rest) = text_eq section (codes "held")

pub open_part : (rest : List Text) → is_open_to_moderators rest ≡ moderators_part rest
unfolding is_open_to_moderators
open_part [] = refl
open_part (section ∷ rest) = refl

-- Whether the roles of the subscriber open the part of the console.
abbrev pub may_enter : Db → MailingList → Subscriber → List Text → Bool
may_enter d l s rest =
    if owns d l s then true else if moderates d l s then moderators_part rest else false

-- The action answers 401, 403 or 404 and leaves the world alone.
abbrev pub Refuses : M Response → World → Type 0
Refuses m w =
    (answer : Response) × (m w ≡ (ok answer, w))
    × ((answer.status ≡ 401) ⊎ ((answer.status ≡ 403) ⊎ (answer.status ≡ 404)))

module _ (s : Subscriber) (l : MailingList) (next : M Response) (d : Db) (clock : Time)
    (token_of : ℕ → Text) (n : ℕ) where
  owner-refused : owns d l s ≡ false → Refuses (require_owner s l next) (healthy d clock token_of n)
  unfolding require_owner flag has_role statement attempt pure ◌>>=◌ any
  owner-refused h = (json_error 403 (codes "owner required"), rw h refl, inr (inl refl))

  role-refused :
      owns d l s ≡ false
      → moderates d l s ≡ false
      → Refuses (require_role s l next) (healthy d clock token_of n)
  unfolding require_role flag has_role statement attempt pure ◌>>=◌ any
  role-refused h k =
      (json_error 403 (codes "owner or moderator required"), rw (h, k) refl, inr (inl refl))

  -- `part` is whether the part of the console is open to moderators.
  part-refused :
      (part owner moderator : Bool)
      → owns d l s ≡ owner
      → moderates d l s ≡ moderator
      → (if owner then true else if moderator then part else false) ≡ false
      → Refuses
          (if part then require_role s l next else require_owner s l next)
          (healthy d clock token_of n)
  part-refused part true moderator h k e = ground (arith, e)
  part-refused true false true h k e = ground (arith, e)
  part-refused false false true h k e = owner-refused h
  part-refused true false false h k e = role-refused h k
  part-refused false false false h k e = owner-refused h

module _ (handler : ConsoleRoute → Request → Subscriber → MailingList → M Response) where
  gated-refused :
      (rest : List Text) (route : Option ConsoleRoute) (r : Request) (s : Subscriber)
      (l : MailingList) (d : Db) (clock : Time) (token_of : ℕ → Text) (n : ℕ)
      → may_enter d l s rest ≡ false
      → Refuses (gated handler rest route r s l) (healthy d clock token_of n)
  unfolding pure
  gated-refused rest none r s l d clock token_of n h = (not_found_page, refl, inr (inr refl))
  gated-refused rest (some route) r s l d clock token_of n h = rw (open_part rest) (
      part-refused s l (handler route r s l) d clock token_of n (moderators_part rest) _ _ refl refl
        h)

handle_console_list-refused :
    (handler : ConsoleRoute → Request → Subscriber → MailingList → M Response) (domain name : Text)
    (rest : List Text) (r : Request) (s : Subscriber) (l : MailingList) (d : Db) (clock : Time)
    (token_of : ℕ → Text) (n : ℕ)
    → path_parts (codes "/api/console/lists/") r.path ≡ domain ∷ name ∷ rest
    → first
        (λ x. text_eq x.list_name name && text_eq x.domain domain)
        (joined d.domains.rows d.lists.rows)
      ≡ some l
    → may_enter d l s rest ≡ false
    → Refuses (handle_console_list handler r s) (healthy d clock token_of n)
unfolding handle_console_list get_list statement attempt ◌>>=◌ first
handle_console_list-refused handler domain name rest r s l d clock token_of n path found h =
    rw (path, found) (gated-refused handler rest (console_route rest) r s l d clock token_of n h)

-- Whether the tables let the request into the part of the console.
abbrev pub may_use : Db → Time → Request → MailingList → List Text → Bool
may_use d clock r l rest = elim (caller_of d clock r) [
  | none ↦ false
  | some s ↦ if d.web_settings.management_enabled then may_enter d l s rest else false
]

module _ (handler : ConsoleRoute → Request → Subscriber → MailingList → M Response)
    (domain name : Text) (rest : List Text) (r : Request) (l : MailingList) (d : Db) (clock : Time)
    (token_of : ℕ → Text) (n : ℕ)
    (path : path_parts (codes "/api/console/lists/") r.path ≡ domain ∷ name ∷ rest)
    (found : first
        (λ x. text_eq x.list_name name && text_eq x.domain domain)
        (joined d.domains.rows d.lists.rows)
      ≡ some l) where
  switched-refused :
      (s : Subscriber) (managed : Bool)
      → (if managed then may_enter d l s rest else false) ≡ false
      → Refuses
          (if managed
            then handle_console_list handler r s
            else pure (json_error 403 (codes "web management is disabled")))
          (healthy d clock token_of n)
  unfolding pure
  switched-refused s true h =
      handle_console_list-refused handler domain name rest r s l d clock token_of n path found h
  switched-refused s false h =
      (json_error 403 (codes "web management is disabled"), refl, inr (inl refl))

  for_caller-refused :
      (caller : Option Subscriber)
      → (elim caller [
        | none ↦ false
        | some s ↦ if d.web_settings.management_enabled then may_enter d l s rest else false
      ])
        ≡ false
      → Refuses
          (for_caller (λ s. require_management (handle_console_list handler r s)) caller)
          (healthy d clock token_of n)
  unfolding require_management web_management_enabled get_web_settings statement attempt pure ◌>>=◌
  for_caller-refused none h = (unauthorized, refl, inl refl)
  for_caller-refused (some s) h = switched-refused s _ h

-- A request may use the console of a list only with a valid session, while web management is switched
-- on, and for a subscriber who owns the list, or who moderates it, then the overview and the
-- held messages only. What it may not use answers 401, 403, or 404 where there is no such page,
-- and changes nothing, whatever the handler behind it does.
pub console_list_endpoint-refused :
    (handler : ConsoleRoute → Request → Subscriber → MailingList → M Response) (domain name : Text)
    (rest : List Text) (r : Request) (l : MailingList) (d : Db) (clock : Time) (token_of : ℕ → Text)
    (n : ℕ)
    → path_parts (codes "/api/console/lists/") r.path ≡ domain ∷ name ∷ rest
    → first
        (λ x. text_eq x.list_name name && text_eq x.domain domain)
        (joined d.domains.rows d.lists.rows)
      ≡ some l
    → may_use d clock r l rest ≡ false
    → Refuses (console_list_endpoint handler r) (healthy d clock token_of n)
unfolding console_list_endpoint require_auth ◌>>=◌
console_list_endpoint-refused handler domain name rest r l d clock token_of n path found h =
    rw (authenticate-caller_of r d clock token_of n)
      (for_caller-refused handler domain name rest r l d clock token_of n path found _ h)
