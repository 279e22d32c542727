-- ===== src/Core/Action.antt =====
-- An `async fn` that may fail and changes a state as it runs: `Err` ends the body where it stands and
-- keeps what the statements before it wrote.
pub mod Outcomes
use coin_listener.Prelude.{◌≡◌, List, [], ◌∷◌, ◌++◌, Option, none, some}
use coin_listener.Core.Error.{AppResult, ok, err}

abbrev pub Action : Type 0 → Type 0 → Type 0
Action S A = S → AppResult A × S

abbrev pub pure : {S A : Type 0} → A → Action S A
pure a s = (ok a, s)

abbrev pub lift : {S A : Type 0} → AppResult A → Action S A
lift r s = (r, s)

infixl 10 ◌>>=◌ ◌>>◌
abbrev pub bind_result : {S A B : Type 0} → AppResult A × S → (A → Action S B) → AppResult B × S
bind_result (err e, s) f = (err e, s)
bind_result (ok a, s) f = f a s

abbrev pub ◌>>=◌ : {S A B : Type 0} → Action S A → (A → Action S B) → Action S B
◌>>=◌ m f s = bind_result (m s) f

abbrev pub ◌>>◌ : {S B : Type 0} → Action S (Unit {0}) → Action S B → Action S B
m >> k = m >>= λ _. k

-- `for item in items`, with the vector that the rounds extend.
unfoldable pub for_each : {S A E : Type 0} → (A → Action S (List E)) → List A → Action S (List E)
for_each body [] = pure []
for_each body (x ∷ xs) = do first ← body x; rest ← for_each body xs; pure (first ++ rest)
