-- ===== src/Storage/ScanQueue/Wake.antt =====
-- A signal wakes one wait.
use coin_listener.Prelude.{
  ◌≤◌, ◌≡◌, refl, Bool, true, false, List, [], ◌∷◌, Option, none, some, any, arith, IsIn, head,
  tail, Bool-cases, inl, inr, ap, ◌⊎◌,
}
use coin_listener.Prelude.Text.{Text, text_eq_refl}
use coin_listener.Core.Error.{AppResult, ok}
use coin_listener.Storage.Sql.{rows_affected, IsIn-cases}
use coin_listener.Storage.Sql.Count.{rows_affected-any}
use coin_listener.Storage.ScanQueue.{
  is_wake, scan_wake_signal_payload, signal, brpop, after_value, wait_for_signal, received,
  after_pop,
}

abbrev IsPopped : Text → List Text → Option (Text × List Text) → Type 0
IsPopped v vs none = ⊥
IsPopped v vs (some (last, rest)) =
    IsIn last (v ∷ vs) × (rows_affected is_wake rest ≤ rows_affected is_wake (v ∷ vs))

brpop-IsPopped : (v : Text) (vs : List Text) → IsPopped v vs (brpop (v ∷ vs))
unfolding brpop rows_affected
brpop-IsPopped v [] = (head, omega arith)
brpop-IsPopped v (w ∷ ws) = after (brpop (w ∷ ws)) (brpop-IsPopped w ws)
  where
    after :
        (o : Option (Text × List Text)) → IsPopped w ws o → IsPopped v (w ∷ ws) (after_value v o)
    after none h = absurd h
    after (some (last, rest)) h = (tail h.0, omega (arith, h.1))

-- What a signal makes of the list: not empty, with one wake at most, and nothing else new.
abbrev IsSignalled : List Text → List Text → Type 0
IsSignalled values [] = ⊥
IsSignalled values (v ∷ vs) =
    (rows_affected is_wake (v ∷ vs) ≤ 1)
    × ((w : Text) → IsIn w (v ∷ vs) → (is_wake w ≡ true) ⊎ IsIn w values)

wakes : is_wake scan_wake_signal_payload ≡ true
wakes = text_eq_refl scan_wake_signal_payload

pushed :
    (values : List Text)
    → any is_wake values ≡ false
    → IsSignalled values (scan_wake_signal_payload ∷ values)
unfolding rows_affected
pushed values absent = (
  rw wakes (omega (arith, rows_affected-any is_wake values absent)),
  λ w m. elim (IsIn-cases m) [ inl e ↦ inl (rw e wakes) | inr n ↦ inr n ],
)

signal-IsSignalled :
    (values : List Text)
    → rows_affected is_wake values ≤ 1
    → IsSignalled values (signal none values).1
unfolding signal
signal-IsSignalled [] one = pushed [] refl
signal-IsSignalled (v ∷ vs) one = elim (Bool-cases (any is_wake (v ∷ vs))) [
  | inl there ↦ rw there (one, λ w m. inr m)
  | inr absent ↦ rw absent (pushed (v ∷ vs) absent)
]

module _ (is_task : Text → Bool) where
  abbrev IsWoken : AppResult Bool × List Text → Type 0
  IsWoken p = (rest : List Text) × (p ≡ (ok true, rest)) × (rows_affected is_wake rest ≤ 1)

  received-eq : (v : Text) → (is_wake v ≡ true) ⊎ (is_task v ≡ false) → received is_task v ≡ ok true
  unfolding received
  received-eq v h = ground (arith, h)

  woken :
      (values vs : List Text)
      → IsSignalled values vs
      → ((v : Text) → IsIn v values → is_task v ≡ false)
      → IsWoken (wait_for_signal is_task none vs)
  woken values [] h current = absurd h
  woken values (v ∷ vs) h current =
      unfold wait_for_signal in after (brpop (v ∷ vs)) (brpop-IsPopped v vs)
    where
      after :
          (o : Option (Text × List Text)) → IsPopped v vs o → IsWoken (after_pop is_task (v ∷ vs) o)
      after none g = absurd g
      after (some (last, rest)) g =
          let ok_last =
            received-eq last
              (elim (h.1 last g.0) [ inl wake ↦ inl wake | inr old ↦ inr (current last old) ]) in
          (rest, ap (λ r. (r, rest)) ok_last, omega (arith, g.1, h.0))

  -- In a list with at most one wake and no task of the old format, a wait after a signal answers
  -- true, and at most one wake is left.
  pub wait_for_signal-signal :
      (values : List Text)
      → rows_affected is_wake values ≤ 1
      → ((v : Text) → IsIn v values → is_task v ≡ false)
      → (rest : List Text) × (wait_for_signal is_task none (signal none values).1 ≡ (ok true, rest))
        × (rows_affected is_wake rest ≤ 1)
  wait_for_signal-signal values one current = woken values _ (signal-IsSignalled values one) current
