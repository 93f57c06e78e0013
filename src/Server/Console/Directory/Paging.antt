-- ===== src/Server/Console/Directory/Paging.antt =====
-- A page of the directory, of internal/server/console.go.
use xlistman.Prelude.{
  ℕ, zero, suc, ◌+◌, ◌-◌, ◌≡◌, ◌≤◌, refl, ap, List, [], ◌∷◌, ◌++◌, length, arith, map, keep, not,
  if◌then◌else◌,
}
use xlistman.Store.Archive.{take, drop}
use xlistman.Strings.{Text, codes, is_empty}
use xlistman.Store.Directory.{MemberView}
use xlistman.Server.Http.{Request, Response, Content, Row, Web}
use xlistman.Server.Console.Directory.{at_most, awaits, contains, member_info}

module _ {A : Type 0} where
  take-all : (n : ℕ) (xs : List A) → length xs ≤ n → take n xs ≡ xs
  take-all zero [] h = refl
  take-all zero (x ∷ xs) h = ground (arith, h)
  take-all (suc n) [] h = refl
  take-all (suc n) (x ∷ xs) h = ap (λ ys. x ∷ ys) (take-all n xs (omega (arith, h)))

  drop-all : (n : ℕ) (xs : List A) → length xs ≤ n → drop n xs ≡ []
  drop-all zero [] h = refl
  drop-all zero (x ∷ xs) h = ground (arith, h)
  drop-all (suc n) [] h = refl
  drop-all (suc n) (x ∷ xs) h = drop-all n xs (omega (arith, h))

-- The rows that a response has as the members of the page: the first of its tables.
abbrev pub first_table : List (Text × List Row) → List Row
first_table [] = []
first_table ((name, rows) ∷ more) = rows

abbrev pub members_in : Response → List Row
members_in res = elim res.content [
  | Content.object_with numbers tables ↦ first_table tables
  | _ ↦ []
]

-- The members that a request asks for: those that are not held, and whose address has the searched part.
abbrev pub searched_for : Web → Request → List MemberView → List MemberView
searched_for web r members =
    let q = web.env.to_lower (web.env.trim_space (r.query (codes "q"))) in
    let roster = keep (λ m. not (awaits m.subscription)) members in
    if is_empty q then roster else keep (λ m. contains (web.env.to_lower m.email) q) roster

-- A response with one page of the members, from the offset on. The page has 200 at most, and as many as
-- the limit unless the members end before; what stands before it is what the offset skips, and what
-- stands behind it is where the page at the next offset starts.
pub record ServesPage (members : List MemberView) (offset limit : ℕ) (res : Response) : Type 0 where
  pub page : List MemberView
  pub served : members_in res ≡ map member_info page
  pub at_most_200 : length (members_in res) ≤ 200
  pub filled : length page ≡ at_most (length members - offset) limit
  pub in_place : take offset members ++ (page ++ drop (offset + limit) members) ≡ members
