-- ===== src/Server/Console/Gates/Passing.antt =====
-- Who gets into the console of a list, and to what.
use xlistman.Prelude.{ℕ, ◌≡◌, Bool, true, false, Option, none, some, List}
use xlistman.Strings.{Text}
use xlistman.Effects.Tables.{Db}
use xlistman.Effects.{healthy, M, pure}
use xlistman.Model.{Time, MailingList, Subscriber}
use xlistman.Server.Http.{Request, Response, not_found_page}
use xlistman.Server.Access.Callers.{caller_of}
use xlistman.Server.Console.{ConsoleRoute, console_route, console_list_endpoint}
use xlistman.Server.Console.Gates.{Refuses}

module _ (handler : ConsoleRoute → Request → Subscriber → MailingList → M Response) where
  -- What stands behind the gates: the page's handler, or no page.
  abbrev pub behind : Option ConsoleRoute → Request → Subscriber → MailingList → M Response
  behind none r s l = pure not_found_page
  behind (some route) r s l = handler route r s l

  module _ (domain name : Text) (rest : List Text) (r : Request) (l : MailingList) (d : Db)
      (clock : Time) (token_of : ℕ → Text) (n : ℕ) where
    -- What the endpoint does with a request that may use the page of the console, and with one that may
    -- not.
    abbrev pub Decides : Bool → Type 0
    Decides true =
        (s : Subscriber) × (caller_of d clock r ≡ some s)
        × (console_list_endpoint handler r (healthy d clock token_of n)
            ≡ behind (console_route rest) r s l (healthy d clock token_of n))
    Decides false = Refuses (console_list_endpoint handler r) (healthy d clock token_of n)
