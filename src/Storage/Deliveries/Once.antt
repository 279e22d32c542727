-- ===== src/Storage/Deliveries/Once.antt =====
-- What a delivery keeps under every sequence of the statements, and what a later beginning answers.
use coin_listener.Prelude.{
  ℕ, ◌≤◌, ◌≡◌, refl, sym, ap, ◌∙◌, ◌⊎◌, inl, inr, Bool, true, false, ◌&&◌, not, List, [], ◌∷◌, ◌++◌,
  Option, none, some, if◌then◌else◌, leb, ◌==◌, any, find, arith, IsIn, head, tail, Bool-cases,
  none-ne-some, ==_iff,
}
use mathlib.Core.Bool.{false≢true}
use coin_listener.Prelude.Text.{Text}
use coin_listener.Core.Clock.{Time}
use coin_listener.Core.Error.{ok}
use coin_listener.Core.Models.{Uuid, NotificationDelivery, DeliveryStatus}
use coin_listener.Storage.Sql.{update_where, rows_affected, IsIn-cases}
use coin_listener.Storage.Deliveries.{
  already_complete, DeliveryKey, is_delivery_of, delivery_of, new_delivery, may_restart, restarted,
  restart, start_found, start_existing, external_delivery_start_from_status_and_attempt,
  begin_external_notification_delivery, is_attempt, mark_where, sent_delivery, failed_delivery,
  mark_external_notification_delivery_sent, mark_external_notification_delivery_failed,
  is_processing,
}
use coin_listener.Storage.Deliveries.Attempts.{
  HasUniqueIds, Step, begins, sends, fails, Reach, start, then_step, find-IsIn,
  find-update_where_of, find-append_kept, update_where-HasUniqueIds,
}

-- The attempts do not go back, and a sent delivery stays as it is.
abbrev pub IsLater : NotificationDelivery → NotificationDelivery → Type 0
IsLater d e = (d.attempt_count ≤ e.attempt_count) × (d.status ≡ DeliveryStatus.sent → e ≡ d)

IsLater-refl : (d : NotificationDelivery) → IsLater d d
IsLater-refl d = (omega arith, λ s. refl)

-- A table in order, with a delivery for the key that is no earlier than `d`.
abbrev pub HasLater : DeliveryKey → NotificationDelivery → List NotificationDelivery → Type 0
HasLater key d rows =
    HasUniqueIds rows × ((e : NotificationDelivery) × (delivery_of key rows ≡ some e) × IsLater d e)

updated :
    (key : DeliveryKey) (d : NotificationDelivery) (taken : NotificationDelivery → Bool)
    (set : NotificationDelivery → NotificationDelivery) (rows : List NotificationDelivery)
    → HasUniqueIds rows
    → delivery_of key rows ≡ some d
    → ((r : NotificationDelivery) → (set r).id ≡ r.id)
    → ((r : NotificationDelivery) → is_delivery_of key (set r) ≡ is_delivery_of key r)
    → (taken d ≡ true → IsLater d (set d))
    → HasLater key d (update_where taken set rows)
unfolding delivery_of
updated key d taken set rows u f ids keys late = (
  update_where-HasUniqueIds taken set rows ids u,
  (
    if taken d then set d else d,
    find-update_where_of (is_delivery_of key) taken set rows d keys f,
    elim (Bool-cases (taken d)) [
      | inl yes' ↦ rw yes' (late yes')
      | inr no' ↦ rw no' (IsLater-refl d)
    ],
  ),
)

-- The MARK statements take a row that is being sent.
attempt-IsLater :
    (tenant_id delivery_id : Uuid) (n : ℕ) (d e : NotificationDelivery)
    → is_attempt tenant_id delivery_id n d ≡ true
    → d.attempt_count ≡ e.attempt_count
    → IsLater d e
unfolding is_attempt
attempt-IsLater tenant_id delivery_id n d e t same =
    (omega arith, λ s. absurd (of_status d.status s t))
  where
    of_status :
        (status : DeliveryStatus)
        → status ≡ DeliveryStatus.sent
        → (d.id == delivery_id
            && d.tenant_id == tenant_id
            && is_processing status
            && d.attempt_count == n)
          ≡ true
        → ⊥
    of_status status s t = ground arith

module _ (key : DeliveryKey) (d : NotificationDelivery) (rows : List NotificationDelivery)
    (u : HasUniqueIds rows) (f : delivery_of key rows ≡ some d) where
  unchanged : HasLater key d rows
  unchanged = (u, (d, f, IsLater-refl d))

  restart-later :
      (tenant_id : Uuid) (n : ℕ) (other : NotificationDelivery)
      → IsIn other rows
      → (other.status ≡ DeliveryStatus.sent → ⊥)
      → HasLater key d (restart other.id tenant_id n rows).1
  unfolding restart may_restart restarted is_delivery_of delivery_of
  restart-later tenant_id n other m unsent =
      elim (Bool-cases (rows_affected (may_restart other.id tenant_id n) rows == 0)) [
        | inl yes' ↦ rw yes' unchanged
        | inr no' ↦ rw no' (
            updated key d (may_restart other.id tenant_id n) (restarted n) rows u f (λ r. refl)
              (λ r. refl) late)
      ]
    where
      late : may_restart other.id tenant_id n d ≡ true → IsLater d (restarted n d)
      late t = (
        ground arith,
        λ s. absurd (
            unsent (
              ap (λ x. x.status)
                (sym (u d other (find-IsIn (is_delivery_of key) rows d f).0 m (ground arith)))
              ∙ s)),
      )

  start_found-later :
      (tenant_id : Uuid) (n : ℕ) (other : NotificationDelivery) (status : DeliveryStatus)
      → other.status ≡ status
      → IsIn other rows
      → HasLater key d
          (start_found tenant_id n rows (
            external_delivery_start_from_status_and_attempt other.id status other.attempt_count
              n)).1
  unfolding start_found external_delivery_start_from_status_and_attempt
  start_found-later tenant_id n other DeliveryStatus.sent e m = unchanged
  start_found-later tenant_id n other DeliveryStatus.skipped e m = unchanged
  start_found-later tenant_id n other DeliveryStatus.processing e m =
      elim (Bool-cases (leb n other.attempt_count)) [
        | inl yes' ↦ rw yes' unchanged
        | inr no' ↦ rw no' (restart-later tenant_id n other m (λ s. cc))
      ]
  start_found-later tenant_id n other DeliveryStatus.failed e m =
      elim (Bool-cases (leb n other.attempt_count)) [
        | inl yes' ↦ rw yes' unchanged
        | inr no' ↦ rw no' (restart-later tenant_id n other m (λ s. cc))
      ]

  start_existing-later :
      (tenant_id : Uuid) (n : ℕ) (other : Option NotificationDelivery)
      → ((e : NotificationDelivery) → other ≡ some e → IsIn e rows)
      → HasLater key d (start_existing tenant_id n rows other).1
  unfolding start_existing
  start_existing-later tenant_id n none m = unchanged
  start_existing-later tenant_id n (some e) m =
      start_found-later tenant_id n e e.status refl (m e refl)

  inserted :
      (new : NotificationDelivery)
      → ((e : NotificationDelivery) → IsIn e rows → (e.id == new.id) ≡ false)
      → HasLater key d (rows ++ new ∷ [])
  unfolding delivery_of
  inserted new fresh =
      (unique, (d, find-append_kept (is_delivery_of key) rows (new ∷ []) d f, IsLater-refl d))
    where
      of_append :
          (qs : List NotificationDelivery) (x : NotificationDelivery)
          → IsIn x (qs ++ new ∷ [])
          → IsIn x qs ⊎ (x ≡ new)
      of_append [] x m = elim (IsIn-cases m) [ inl e ↦ inr e | inr n ↦ elim n [ ] ]
      of_append (q ∷ qs) x m = elim (IsIn-cases m) [
        | inl e ↦ inl (rw e head)
        | inr n ↦ elim (of_append qs x n) [ inl k ↦ inl (tail k) | inr e ↦ inr e ]
      ]

      old_new : (x y : NotificationDelivery) → IsIn x rows → y ≡ new → x.id ≡ y.id → ⊥
      old_new x y m e h =
          false≢true (sym (fresh x m) ∙ (==_iff x.id new.id).1 (h ∙ ap (λ z. z.id) e))

      pair :
          (x y : NotificationDelivery)
          → IsIn x rows ⊎ (x ≡ new)
          → IsIn y rows ⊎ (y ≡ new)
          → x.id ≡ y.id
          → x ≡ y
      pair x y (inl m) (inl n) h = u x y m n h
      pair x y (inl m) (inr e) h = absurd (old_new x y m e h)
      pair x y (inr e) (inl m) h = absurd (old_new y x m e (sym h))
      pair x y (inr e) (inr k) h = e ∙ sym k

      unique : HasUniqueIds (rows ++ new ∷ [])
      unique x y m n h = pair x y (of_append rows x m) (of_append rows y n) h

  begin-later :
      (id : Uuid) (clock : Time) (target : Bool) (other : DeliveryKey) (channel_type : Text) (n : ℕ)
      → ((e : NotificationDelivery) → IsIn e rows → (e.id == id) ≡ false)
      → HasLater key d
          (begin_external_notification_delivery id clock target other channel_type n rows).1
  unfolding begin_external_notification_delivery new_delivery delivery_of
  begin-later id clock target other channel_type n fresh =
      elim (Bool-cases (target && not (any (is_delivery_of other) rows))) [
        | inl yes' ↦ rw yes' (inserted (new_delivery id clock other channel_type n) fresh)
        | inr no' ↦ rw no' (
            start_existing-later other.tenant_id n (find (is_delivery_of other) rows)
              (λ e h. (find-IsIn (is_delivery_of other) rows e h).0))
      ]

  Step-later : {after : List NotificationDelivery} → Step rows after → HasLater key d after
  unfolding mark_external_notification_delivery_sent mark_external_notification_delivery_failed
      mark_where sent_delivery failed_delivery is_delivery_of
  Step-later (begins id clock target other channel_type n fresh) =
      begin-later id clock target other channel_type n fresh
  Step-later (sends tenant_id delivery_id n sent_at message_id status_code response) =
      updated key d (is_attempt tenant_id delivery_id n)
        (sent_delivery sent_at message_id status_code response) rows u f (λ r. refl) (λ r. refl)
        (λ t. attempt-IsLater tenant_id delivery_id n d _ t refl)
  Step-later (fails tenant_id delivery_id n last_error status_code response) =
      updated key d (is_attempt tenant_id delivery_id n)
        (failed_delivery last_error status_code response) rows u f (λ r. refl) (λ r. refl)
        (λ t. attempt-IsLater tenant_id delivery_id n d _ t refl)

IsLater-trans : (a b c : NotificationDelivery) → IsLater a b → IsLater b c → IsLater a c
IsLater-trans a b c (n, s) (m, t) = (omega arith, λ h. t (ap (λ x. x.status) (s h) ∙ h) ∙ s h)

Reach-later :
    (key : DeliveryKey) (d : NotificationDelivery) {rows after : List NotificationDelivery}
    → HasUniqueIds rows
    → delivery_of key rows ≡ some d
    → Reach rows after
    → HasLater key d after
Reach-later key d {rows = rows} u f start = unchanged key d rows u f
Reach-later key d u f (then_step {mid = mid} reach step) =
    let (v, (e, g, l)) = Reach-later key d u f reach in
    let (w, (e', g', l')) = Step-later key e mid v g step in
    (w, (e', g', IsLater-trans d e e' l l'))

any-find-some :
    (test : NotificationDelivery → Bool) (rows : List NotificationDelivery)
    (d : NotificationDelivery)
    → find test rows ≡ some d
    → any test rows ≡ true
any-find-some test [] d h = absurd (none-ne-some h)
any-find-some test (r ∷ rows) d h = elim (Bool-cases (test r)) [
  | inl yes' ↦ rw yes' refl
  | inr no' ↦ rw no' (any-find-some test rows d (rw no' at h))
]

-- Where ids are unique and `d` is the delivery of a key: after any sequence of beginnings, sent and
-- failed marks, of any deliveries by any notifiers, an attempt that is not above that of `d`, or any
-- attempt if `d` is sent, is not begun again: it answers that the delivery is complete, and the table
-- stays as it is.
pub begin_external_notification_delivery-once :
    (key : DeliveryKey) (d : NotificationDelivery) (rows after : List NotificationDelivery)
    (id : Uuid) (clock : Time) (target : Bool) (channel_type : Text) (n : ℕ)
    → HasUniqueIds rows
    → delivery_of key rows ≡ some d
    → Reach rows after
    → (n ≤ d.attempt_count) ⊎ (d.status ≡ DeliveryStatus.sent)
    → (delivery_id : Uuid) × (begin_external_notification_delivery id clock target key channel_type
          n after
        ≡ (ok (already_complete delivery_id), after))
unfolding begin_external_notification_delivery start_existing start_found
    external_delivery_start_from_status_and_attempt delivery_of
begin_external_notification_delivery-once key d rows after id clock target channel_type n u f reach
      late =
    let (v, (e, g, l)) = Reach-later key d u f reach in
    (
      e.id,
      rw (any-find-some (is_delivery_of key) after e g, and_false target, g)
          (of_status e l e.status refl),
    )
  where
    and_false : (b : Bool) → (b && false) ≡ false
    and_false b = ground arith

    enough :
        (e : NotificationDelivery)
        → IsLater d e
        → (e.status ≡ DeliveryStatus.sent → ⊥)
        → leb n e.attempt_count ≡ true
    enough e l unsent = elim late [
      | inl le ↦ ground (arith, l.0)
      | inr s ↦ absurd (unsent (ap (λ x. x.status) (l.1 s) ∙ s))
    ]

    of_status :
        (e : NotificationDelivery)
        → IsLater d e
        → (status : DeliveryStatus) → e.status ≡ status
        → start_found key.tenant_id n after
            (external_delivery_start_from_status_and_attempt e.id status e.attempt_count n)
          ≡ (ok (already_complete e.id), after)
    of_status e l DeliveryStatus.sent s = refl
    of_status e l DeliveryStatus.skipped s = refl
    of_status e l DeliveryStatus.processing s = rw (enough e l (λ k. cc)) refl
    of_status e l DeliveryStatus.failed s = rw (enough e l (λ k. cc)) refl
