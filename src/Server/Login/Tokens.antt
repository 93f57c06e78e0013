-- ===== src/Server/Login/Tokens.antt =====
-- Statements that are bound to succeed: a new credential under a fresh token, a message in the queue.
use xlistman.Prelude.{
  ℕ, suc, ◌≡◌, refl, false, none, List, [], ◌∷◌, ◌++◌, any, any-never, first, arith, Bool,
}
use xlistman.Strings.{Text, text_eq}
use xlistman.Result.{ok}
use xlistman.Effects.Tables.{Db, insert}
use xlistman.Effects.{healthy, ◌>>=◌, pure, statement, now, generate_token}
use xlistman.Model.{Time, Credential}
use xlistman.Store.Access.{Place, create}
use xlistman.Store.Auth.{create_credential}
use xlistman.Store.Queue.{enqueue}

abbrev pub credential : Text → ℕ → Text → Time → Time → Credential
credential token subscriber_id email expires_at created_at = record {
  token = token;
  subscriber_id = subscriber_id;
  email = email;
  expires_at = expires_at;
  created_at = created_at;
}

pub create_credential-fresh :
    (place : Place Credential) (s : ℕ) (email : Text) (expires : Time) (d : Db) (clock : Time)
    (token_of : ℕ → Text) (n : ℕ)
    → any (λ c. text_eq c.token (token_of n)) (place.get d).rows ≡ false
    → create_credential place s email expires (healthy d clock token_of n) ≡ (
      ok (token_of n),
      healthy
          (place.put
            (record {
              rows = (place.get d).rows ++ credential (token_of n) s email expires clock ∷ [];
              next_id = suc (place.get d).next_id;
            })
            d)
          clock
          token_of
          (suc n),
    )
unfolding create_credential create insert statement now generate_token pure ◌>>=◌
create_credential-fresh place s email expires d clock token_of n h = rw h refl

pub enqueue-succeeds :
    (l : ℕ) (from to body envelope sender : Text) (d : Db) (clock : Time) (token_of : ℕ → Text)
    (n : ℕ)
    → (enqueue l from to body envelope sender (healthy d clock token_of n)).0 ≡ ok tt
unfolding enqueue create insert statement now pure ◌>>=◌
enqueue-succeeds l from to body envelope sender d clock token_of n =
    rw (any-never d.queue.rows) refl

-- What is found behind the rows, if it is not among them.
pub first-appended :
    {A : Type 0} (p : A → Bool) (x : A) (xs : List A)
    → first p xs ≡ none
    → first p (xs ++ x ∷ []) ≡ first p (x ∷ [])
unfolding first
first-appended p x [] h = refl
first-appended p x (y ∷ ys) h = ground (arith, h, first-appended p x ys)
