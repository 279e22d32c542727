-- ===== src/Core/Action/Outcomes.antt =====
-- What holds after an action, whether it fails or returns: the rules of the sequence and of the loop.
use coin_listener.Prelude.{◌≡◌, refl, List, [], ◌∷◌, ◌++◌, All}
use coin_listener.Core.Error.{AppResult, ok, err}
use coin_listener.Core.Action.{Action, pure, bind_result, for_each}

-- `Failed` holds of the state after an error, `Returned` of the value and the state otherwise.
abbrev pub Outcome :
    {S A : Type 0} (Failed : S → Type 0) (Returned : A → S → Type 0) → AppResult A × S → Type 0
Outcome Failed Returned (err e, s) = Failed s
Outcome Failed Returned (ok a, s) = Returned a s

module _ {S : Type 0} (Failed : S → Type 0) where
  pub Outcome-bind_result :
      {A B : Type 0} (First : A → S → Type 0) (Returned : B → S → Type 0) (p : AppResult A × S)
      (f : A → Action S B)
      → Outcome Failed First p
      → ((a : A) (s : S) → First a s → Outcome Failed Returned (f a s))
      → Outcome Failed Returned (bind_result p f)
  Outcome-bind_result First Returned (err e, s) f h step = h
  Outcome-bind_result First Returned (ok a, s) f h step = step a s h

  -- A pure step of the body: what it returned is known after it.
  pub Outcome-lift :
      {A B : Type 0} (Returned : B → S → Type 0) (r : AppResult A) (s : S) (f : A → Action S B)
      → Failed s
      → ((a : A) → r ≡ ok a → Outcome Failed Returned (f a s))
      → Outcome Failed Returned (bind_result (r, s) f)
  Outcome-lift Returned (err e) s f h step = h
  Outcome-lift Returned (ok a) s f h step = step a refl

-- A loop whose rounds keep a reflexive and transitive relation `R` between the state before and
-- the state after, and each establish `P` of their item, which `R` preserves.
module _ {S A E : Type 0} (R : S → S → Type 0) (P : A → S → Type 0) (reflexive : (s : S) → R s s)
    (transitive : (s t u : S) → R s t → R t u → R s u)
    (preserved : (s t : S) (x : A) → R s t → P x s → P x t) (body : A → Action S (List E))
    (round : (x : A) (s : S) → Outcome (R s) (λ _ t. R s t × P x t) (body x s)) where
  pub All-preserved : (s t : S) (xs : List A) → R s t → All (λ x. P x s) xs → All (λ x. P x t) xs
  All-preserved s t [] r h = tt
  All-preserved s t (x ∷ xs) r h = (preserved s t x r h.0, All-preserved s t xs r h.1)

  pub for_each-Outcome :
      (xs : List A) (s : S)
      → Outcome (R s) (λ _ t. R s t × All (λ x. P x t) xs) (for_each body xs s)
  unfolding for_each
  for_each-Outcome [] s = (reflexive s, tt)
  for_each-Outcome (x ∷ xs) s = after_first (for_each-Outcome xs) (body x s) (round x s)
    where
      after_rest :
          (t : S)
          → R s t
          → P x t
          → (q : AppResult (List E) × S) → Outcome (R t) (λ _ u. R t u × All (λ y. P y u) xs) q
          → (first : List E)
          → Outcome
              (R s)
              (λ _ u. R s u × All (λ y. P y u) (x ∷ xs))
              (bind_result q (λ rest. pure (first ++ rest)))
      after_rest t r p (err e, u) h first = transitive s t u r h
      after_rest t r p (ok rest, u) h first = (transitive s t u r h.0, (preserved t u x h.0 p, h.1))

      after_first :
          ((t : S) → Outcome (R t) (λ _ u. R t u × All (λ y. P y u) xs) (for_each body xs t))
          → (q : AppResult (List E) × S) → Outcome (R s) (λ _ t. R s t × P x t) q
          → Outcome
              (R s)
              (λ _ u. R s u × All (λ y. P y u) (x ∷ xs))
              (bind_result q
                (λ first. λ t. bind_result (for_each body xs t) (λ rest. pure (first ++ rest))))
      after_first later (err e, t) h = h
      after_first later (ok first, t) h = after_rest t h.0 h.1 (for_each body xs t) (later t) first
