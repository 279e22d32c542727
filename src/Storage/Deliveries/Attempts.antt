-- ===== src/Storage/Deliveries/Attempts.antt =====
-- A notification is sent at most once for each attempt, and not again once it was sent, whatever the
-- notifiers do at the same time.
use coin_listener.Prelude.{
  ℕ, ◌≡◌, sym, ap, ◌∙◌, ◌⊎◌, inl, inr, Bool, true, false, List, [], ◌∷◌, ◌++◌, Option, some,
  if◌then◌else◌, ◌==◌, find, IsIn, head, tail, Bool-cases, eq_of_some, none-ne-some,
}
use mathlib.Core.Bool.{false≢true}
use coin_listener.Prelude.Int.{ℤ}
use coin_listener.Prelude.Text.{Text}
use coin_listener.Core.Clock.{Time}
use coin_listener.Core.Models.{Uuid, NotificationDelivery}
use coin_listener.Storage.Sql.{update_where, IsIn-update_where_cases}
use coin_listener.Storage.Deliveries.{
  DeliveryKey, begin_external_notification_delivery, mark_external_notification_delivery_sent,
  mark_external_notification_delivery_failed,
}

-- Ids are unique.
abbrev pub HasUniqueIds : List NotificationDelivery → Type 0
HasUniqueIds rows = (d e : NotificationDelivery) → IsIn d rows → IsIn e rows → d.id ≡ e.id → d ≡ e

-- One statement or transaction of a notifier; a new row has a new id.
pub data Step (rows : List NotificationDelivery) : List NotificationDelivery → Type 0 where
  begins :
      (id : Uuid) (clock : Time) (target : Bool) (key : DeliveryKey) (channel_type : Text)
      (attempt_count : ℕ)
      → ((d : NotificationDelivery) → IsIn d rows → (d.id == id) ≡ false)
      → Step rows
          (begin_external_notification_delivery id clock target key channel_type attempt_count
            rows).1
  sends :
      (tenant_id delivery_id : Uuid) (attempt_count : ℕ) (sent_at : Time) (message_id : Option Text)
      (status_code : Option ℤ) (response : Option Text)
      → Step rows
          (mark_external_notification_delivery_sent tenant_id delivery_id attempt_count sent_at
            message_id status_code response rows).1
  fails :
      (tenant_id delivery_id : Uuid) (attempt_count : ℕ) (last_error : Text)
      (status_code : Option ℤ) (response : Option Text)
      → Step rows
          (mark_external_notification_delivery_failed tenant_id delivery_id attempt_count last_error
            status_code response rows).1

pub data Reach (rows : List NotificationDelivery) : List NotificationDelivery → Type 0 where
  start : Reach rows rows
  then_step :
      {mid after : List NotificationDelivery} → Reach rows mid → Step mid after → Reach rows after

pub find-IsIn :
    (test : NotificationDelivery → Bool) (rows : List NotificationDelivery)
    (d : NotificationDelivery)
    → find test rows ≡ some d
    → IsIn d rows × (test d ≡ true)
find-IsIn test [] d h = absurd (none-ne-some h)
find-IsIn test (r ∷ rows) d h = elim (Bool-cases (test r)) [
  | inl yes' ↦ let e : r ≡ d = eq_of_some (rw yes' at h) in rw e (head, rw e at yes')
  | inr no' ↦ let (m, t) = find-IsIn test rows d (rw no' at h) in (tail m, t)
]

pub find-update_where_of :
    (test taken : NotificationDelivery → Bool) (set : NotificationDelivery → NotificationDelivery)
    (rows : List NotificationDelivery) (d : NotificationDelivery)
    → ((r : NotificationDelivery) → test (set r) ≡ test r)
    → find test rows ≡ some d
    → find test (update_where taken set rows) ≡ some (if taken d then set d else d)
unfolding update_where
find-update_where_of test taken set [] d keeps h = absurd (none-ne-some h)
find-update_where_of test taken set (r ∷ rows) d keeps h = elim (Bool-cases (test r)) [
  | inl yes' ↦
      let e : r ≡ d = eq_of_some (rw yes' at h) in
      rw (test_kept r yes') (ap (λ x. some (if taken x then set x else x)) e)
  | inr no' ↦
      rw (test_kept_false r no') (find-update_where_of test taken set rows d keeps (rw no' at h))
]
  where
    test_kept :
        (q : NotificationDelivery) → test q ≡ true → test (if taken q then set q else q) ≡ true
    test_kept q t = elim (Bool-cases (taken q)) [
      | inl yes' ↦ rw yes' (keeps q ∙ t)
      | inr no' ↦ rw no' t
    ]

    test_kept_false :
        (q : NotificationDelivery) → test q ≡ false → test (if taken q then set q else q) ≡ false
    test_kept_false q t = elim (Bool-cases (taken q)) [
      | inl yes' ↦ rw yes' (keeps q ∙ t)
      | inr no' ↦ rw no' t
    ]

pub find-append_kept :
    (test : NotificationDelivery → Bool) (rows more : List NotificationDelivery)
    (d : NotificationDelivery)
    → find test rows ≡ some d
    → find test (rows ++ more) ≡ some d
find-append_kept test [] more d h = absurd (none-ne-some h)
find-append_kept test (r ∷ rows) more d h = elim (Bool-cases (test r)) [
  | inl yes' ↦ rw yes' (rw yes' at h)
  | inr no' ↦ rw no' (find-append_kept test rows more d (rw no' at h))
]

pub update_where-HasUniqueIds :
    (taken : NotificationDelivery → Bool) (set : NotificationDelivery → NotificationDelivery)
    (rows : List NotificationDelivery)
    → ((r : NotificationDelivery) → (set r).id ≡ r.id)
    → HasUniqueIds rows
    → HasUniqueIds (update_where taken set rows)
update_where-HasUniqueIds taken set rows keeps u d e m n h =
    both (IsIn-update_where_cases taken set rows m) (IsIn-update_where_cases taken set rows n)
  where
    From : NotificationDelivery → Type 0
    From x =
        (IsIn x rows × (taken x ≡ false))
        ⊎ ((q : NotificationDelivery) × IsIn q rows × (taken q ≡ true) × (x ≡ set q))

    clash : {q r : NotificationDelivery} → q ≡ r → taken q ≡ true → taken r ≡ false → ⊥
    clash e t f = false≢true (sym f ∙ (ap taken (sym e) ∙ t))

    both : From d → From e → d ≡ e
    both (inl (m, f)) (inl (n, g)) = u d e m n h
    both (inl (m, f)) (inr (q, n, t, s)) =
        absurd (clash (sym (u d q m n (h ∙ (ap (λ x. x.id) s ∙ keeps q)))) t f)
    both (inr (q, m, t, s)) (inl (n, g)) =
        absurd (clash (u q e m n (sym (keeps q) ∙ (ap (λ x. x.id) (sym s) ∙ h))) t g)
    both (inr (q, m, t, s)) (inr (r, n, k, v)) =
        s
        ∙ (ap set (
              u q r m n
                (sym (keeps q) ∙ (ap (λ x. x.id) (sym s) ∙ (h ∙ (ap (λ x. x.id) v ∙ keeps r)))))
            ∙ sym v)
