-- ===== src/Server/Admin/Gate.antt =====
-- Who gets to the handlers of the administrators.
use xlistman.Prelude.{
  ℕ, ◌≡◌, inl, inr, refl, Bool, true, false, Option, none, some, ◌==◌, any, if◌then◌else◌,
}
use xlistman.Strings.{Text, codes}
use xlistman.Effects.Tables.{Db}
use xlistman.Effects.{healthy, M, ◌>>=◌, pure, attempt, statement}
use xlistman.Model.{Time, Subscriber}
use xlistman.Store.Auth.{get_web_settings}
use xlistman.Store.Lists.{is_administrator}
use xlistman.Server.Http.{Request, Response, json_error}
use xlistman.Server.Access.{
  require_auth, for_caller, web_management_enabled, require_management, unauthorized,
}
use xlistman.Server.Access.Callers.{caller_of, authenticate-caller_of}
use xlistman.Server.Admin.{require_admin, admin_endpoint}
use xlistman.Server.Console.Gates.{Refuses}

-- Whether the tables have the subscriber as an administrator, with web management on.
abbrev pub administers : Db → Subscriber → Bool
administers d s =
    if d.web_settings.management_enabled
    then any (λ a. a.subscriber_id == s.id) d.administrators.rows
    else false

abbrev pub may_administer : Db → Time → Request → Bool
may_administer d clock r = elim (caller_of d clock r) [ none ↦ false | some s ↦ administers d s ]

module _ (handler : Request → Subscriber → M Response) (r : Request) (d : Db) (clock : Time)
    (token_of : ℕ → Text) (n : ℕ) where
  managed-refused :
      (s : Subscriber) (managed : Bool)
      → d.web_settings.management_enabled ≡ managed
      → (if managed then any (λ a. a.subscriber_id == s.id) d.administrators.rows else false)
        ≡ false
      → Refuses (require_management (require_admin (handler r) s)) (healthy d clock token_of n)
  unfolding require_management web_management_enabled get_web_settings require_admin
      is_administrator statement attempt pure ◌>>=◌ any
  managed-refused s true e h =
      (json_error 403 (codes "administrator required"), rw (e, h) refl, inr (inl refl))
  managed-refused s false e h =
      (json_error 403 (codes "web management is disabled"), rw e refl, inr (inl refl))

  caller-refused :
      (caller : Option Subscriber)
      → (elim caller [ none ↦ false | some s ↦ administers d s ]) ≡ false
      → Refuses
          (for_caller (λ s. require_management (require_admin (handler r) s)) caller)
          (healthy d clock token_of n)
  unfolding pure
  caller-refused none h = (unauthorized, refl, inl refl)
  caller-refused (some s) h = managed-refused s _ refl h

-- No request gets to a handler of the administrators without a valid session of an administrator, or
-- while web management is switched off: the answer is then 401, 403 or 404 and nothing changes, whatever
-- the handler does.
pub admin_endpoint-refused :
    (handler : Request → Subscriber → M Response) (r : Request) (d : Db) (clock : Time)
    (token_of : ℕ → Text) (n : ℕ)
    → may_administer d clock r ≡ false
    → Refuses (admin_endpoint handler r) (healthy d clock token_of n)
unfolding admin_endpoint require_auth ◌>>=◌
admin_endpoint-refused handler r d clock token_of n h =
    rw (authenticate-caller_of r d clock token_of n)
      (caller-refused handler r d clock token_of n _ h)
