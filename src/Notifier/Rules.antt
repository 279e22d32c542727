-- ===== src/Notifier/Rules.antt =====
-- Which rules an event meets: `notification_rule_matches_event` of backend/crates/notifier/src/lib.rs.
use mathlib.Core.Bool.{false≢true}
use coin_listener.Prelude.{
  ◌≡◌, refl, ◌↔◌, Bool, true, false, ◌||◌, Option, none, some, arith, ◌==◌, if◌then◌else◌,
  Bool-cases, inl, inr, ==_iff, not, sym, ◌∙◌,
}
use coin_listener.Prelude.Text.{text_eq, text_eq_iff}
use coin_listener.Core.Models.{AddressEvent, NotificationRule}
use coin_listener.Notifier.Amounts.{amount_raw_meets_minimum}
use coin_listener.Notifier.Amounts.Numeric.{IsAtLeast, amount_raw_meets_minimum_iff}

abbrev is_some_and {ℓ} : {A : Type ℓ} → Option A → (A → Bool) → Bool
is_some_and none test = false
is_some_and (some a) test = test a

abbrev bool_eq : Bool → Bool → Bool
bool_eq true b = b
bool_eq false b = not b

unfoldable pub notification_rule_matches_event : NotificationRule → AddressEvent → Bool
notification_rule_matches_event rule event =
    if not (rule.tenant_id == event.tenant_id) || not rule.enabled
    then false
    else if is_some_and rule.chain_id (λ c. not (c == event.chain_id))
    then false
    else if is_some_and rule.address_id (λ a. not (a == event.address_id))
    then false
    else if is_some_and rule.asset_id (λ a. not (a == event.asset_id))
    then false
    else if is_some_and rule.event_type (λ t. not (text_eq t event.event_type))
    then false
    else if is_some_and rule.is_transfer (λ t. not (bool_eq t event.is_transfer))
    then false
    else if is_some_and rule.direction (λ d. not (text_eq d event.direction))
    then false
    else amount_raw_meets_minimum event.amount_raw rule.min_amount_raw

-- A filter that is not set agrees with every event.
abbrev pub Agrees {ℓ} : {A : Type ℓ} → Option A → A → Type ℓ
Agrees none b = Unit
Agrees (some a) b = a ≡ b

-- All that a rule asks of an event.
pub record IsMet (rule : NotificationRule) (event : AddressEvent) : Type 0 where
  pub tenant : rule.tenant_id ≡ event.tenant_id
  pub enabled : rule.enabled ≡ true
  pub chain : Agrees rule.chain_id event.chain_id
  pub address : Agrees rule.address_id event.address_id
  pub asset : Agrees rule.asset_id event.asset_id
  pub event_type : Agrees rule.event_type event.event_type
  pub transfer : Agrees rule.is_transfer event.is_transfer
  pub direction : Agrees rule.direction event.direction
  pub amount : IsAtLeast event.amount_raw rule.min_amount_raw

guard_iff {ℓ κ} :
    {A : Type ℓ} {B : Type κ} {test rest : Bool}
    → (test ≡ false) ↔ A
    → (rest ≡ true) ↔ B
    → ((if test then false else rest) ≡ true) ↔ (A × B)
guard_iff {test = test} a b = elim (Bool-cases test) [
  | inl yes' ↦
      rw yes' ((λ t. absurd (false≢true t)), (λ p. absurd (false≢true (sym (a.1 p.0) ∙ yes'))))
  | inr no' ↦ rw no' ((λ t. (a.0 no', b.0 t)), (λ p. b.1 p.1))
]

filter_iff {ℓ} :
    {A : Type ℓ} (eq' : A → A → Bool) (o : Option A) (b : A)
    → ((a : A) → (eq' a b ≡ true) ↔ (a ≡ b))
    → (is_some_and o (λ a. not (eq' a b)) ≡ false) ↔ Agrees o b
filter_iff eq' none b h = ((λ t. tt), (λ t. refl))
filter_iff eq' (some a) b h =
    ((λ t. (h a).0 (not_false _ t)), (λ e. let t = (h a).1 e in rw t refl))
  where
    not_false : (x : Bool) → not x ≡ false → x ≡ true
    not_false true t = refl
    not_false false t = absurd (false≢true (sym t))

bool_eq_iff : (a b : Bool) → (bool_eq a b ≡ true) ↔ (a ≡ b)
bool_eq_iff a b = ground arith

tenant_iff :
    (rule : NotificationRule) (event : AddressEvent)
    → ((not (rule.tenant_id == event.tenant_id) || not rule.enabled) ≡ false)
      ↔ ((rule.tenant_id ≡ event.tenant_id) × (rule.enabled ≡ true))
tenant_iff rule event = ground arith

-- A rule matches an event exactly if it is enabled and of the event's tenant, each of its filters on
-- chain, address, asset, event type, transfer flag and direction is unset or equal to the event's
-- value, and the event's amount is at least its minimum.
pub notification_rule_matches_event_iff :
    (rule : NotificationRule) (event : AddressEvent)
    → (notification_rule_matches_event rule event ≡ true) ↔ IsMet rule event
unfolding notification_rule_matches_event
notification_rule_matches_event_iff rule event =
    let i = guard_iff (tenant_iff rule event) (
      guard_iff (filter_iff (λ a b. a == b) rule.chain_id event.chain_id (λ a. ==_iff a _)) (
        guard_iff (filter_iff (λ a b. a == b) rule.address_id event.address_id (λ a. ==_iff a _)) (
          guard_iff (filter_iff (λ a b. a == b) rule.asset_id event.asset_id (λ a. ==_iff a _)) (
            guard_iff (filter_iff text_eq rule.event_type event.event_type (λ a. text_eq_iff a _)) (
              guard_iff
                (filter_iff bool_eq rule.is_transfer event.is_transfer (λ a. bool_eq_iff a _))
                (guard_iff
                  (filter_iff text_eq rule.direction event.direction (λ a. text_eq_iff a _))
                  (amount_raw_meets_minimum_iff event.amount_raw rule.min_amount_raw))))))) in
    (
      (λ t.
          let (p, (c, (a, (s, (e, (f, (d, m))))))) = i.0 t in
          record {
            tenant = p.0;
            enabled = p.1;
            chain = c;
            address = a;
            asset = s;
            event_type = e;
            transfer = f;
            direction = d;
            amount = m;
          }),
      (λ m. i.1 (
        (m.tenant, m.enabled),
        (m.chain, (m.address, (m.asset, (m.event_type, (m.transfer, (m.direction, m.amount)))))),
      )),
    )
