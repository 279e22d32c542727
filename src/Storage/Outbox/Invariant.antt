-- ===== src/Storage/Outbox/Invariant.antt =====
-- What every statement on the outbox keeps.
use coin_listener.Prelude.{
  ℕ, ◌≤◌, ◌<◌, ◌≡◌, Bool, true, false, List, [], ◌∷◌, arith, ◌==◌, All, filter, Bool-cases, inl,
  inr,
}
use native.Mathlib.Nat.{le_trans}
use coin_listener.Core.Clock.{Time}
use coin_listener.Core.Models.{Uuid, NotificationOutboxItem, OutboxStatus}
use coin_listener.Storage.Sql.{update_where, rows_affected, All-update_where_of_IsIn}
use mathlib.Core.Bool.{false≢true}
use coin_listener.Prelude.{IsIn, head, tail, zero, suc}
use coin_listener.Storage.Sql.Count.{eq_of_rows_affected, rows_affected-update_where_le}
use coin_listener.Storage.ScanJobs.Invariant.{is_some}
use coin_listener.Storage.Outbox

abbrev pub is_delivered : OutboxStatus → Bool
is_delivered OutboxStatus.delivered = true
is_delivered _ = false

abbrev pub is_pending : OutboxStatus → Bool
is_pending OutboxStatus.pending = true
is_pending _ = false

-- A row is locked exactly while it is processing, and has a delivery time exactly when delivered.
pub record IsItem (i : NotificationOutboxItem) : Type 0 where
  pub locked_at : is_some i.locked_at ≡ Outbox.is_processing i.status
  pub locked_by : is_some i.locked_by ≡ Outbox.is_processing i.status
  pub delivered : is_some i.delivered_at ≡ is_delivered i.status
  pub tried : is_pending i.status ≡ false → 0 < i.attempt_count

abbrev pub has_id : Uuid → NotificationOutboxItem → Bool
has_id id i = i.id == id

pub record IsOutbox (items : List NotificationOutboxItem) : Type 0 where
  pub rows : All IsItem items
  pub ids : (id : Uuid) → rows_affected (has_id id) items ≤ 1
  pub events : (event : Uuid) → rows_affected (Outbox.is_of_event event) items ≤ 1

pub update-IsOutbox :
    (test : NotificationOutboxItem → Bool) (set : NotificationOutboxItem → NotificationOutboxItem)
    (items : List NotificationOutboxItem)
    → ((i : NotificationOutboxItem) → IsIn i items → IsItem i → test i ≡ true → IsItem (set i))
    → ((i : NotificationOutboxItem) → (set i).id ≡ i.id)
    → ((i : NotificationOutboxItem) → (set i).event_id ≡ i.event_id)
    → IsOutbox items
    → IsOutbox (update_where test set items)
update-IsOutbox test set items row same_id same_event h = record {
  rows = All-update_where_of_IsIn IsItem test set items row h.rows;
  ids = λ n.
      le_trans
        (rows_affected-update_where_le (has_id n) test set items (λ i g t. rw (same_id i) at t))
        (h.ids n);
  events = λ n.
      le_trans
        (rows_affected-update_where_le (Outbox.is_of_event n) test set items
          (λ i g t. rw (same_event i) at t))
        (h.events n);
}

insert_by_due-All :
    (P : NotificationOutboxItem → Type 0) (a : NotificationOutboxItem)
    (s : List NotificationOutboxItem)
    → P a
    → All P s
    → All P (Outbox.insert_by_due a s)
unfolding Outbox.insert_by_due
insert_by_due-All P a [] p h = (p, tt)
insert_by_due-All P a (b ∷ bs) p h = elim (Bool-cases (Outbox.precedes b a)) [
  | inl first ↦ rw first (h.0, insert_by_due-All P a bs p h.1)
  | inr later ↦ rw later (p, h)
]

order_by_due-All :
    (P : NotificationOutboxItem → Type 0) (s : List NotificationOutboxItem)
    → All P s
    → All P (Outbox.order_by_due s)
unfolding Outbox.order_by_due
order_by_due-All P [] h = tt
order_by_due-All P (a ∷ s) h =
    insert_by_due-All P a (Outbox.order_by_due s) h.0 (order_by_due-All P s h.1)

limit_rows-All :
    (P : NotificationOutboxItem → Type 0) (n : ℕ) (s : List NotificationOutboxItem)
    → All P s
    → All P (Outbox.limit_rows n s)
unfolding Outbox.limit_rows
limit_rows-All P zero s h = tt
limit_rows-All P (suc n) [] h = tt
limit_rows-All P (suc n) (a ∷ s) h = (h.0, limit_rows-All P n s h.1)

filter-rows :
    (test : NotificationOutboxItem → Bool) (items : List NotificationOutboxItem)
    → All (λ (d : NotificationOutboxItem). IsIn d items × (test d ≡ true)) (filter test items)
filter-rows test [] = tt
filter-rows test (i ∷ items) =
    let rest = later (filter test items) (filter-rows test items) in
    elim (Bool-cases (test i)) [ inl yes' ↦ rw yes' ((head, yes'), rest) | inr no' ↦ rw no' rest ]
  where
    later :
        (s : List NotificationOutboxItem)
        → All (λ (d : NotificationOutboxItem). IsIn d items × (test d ≡ true)) s
        → All (λ (d : NotificationOutboxItem). IsIn d (i ∷ items) × (test d ≡ true)) s
    later [] h = tt
    later (d ∷ s) h = ((tail h.0.0, h.0.1), later s h.1)

-- Every row that a claim takes stands in the table and is due.
pub due_rows-AreDue :
    (now : Time) (limit : ℕ) (items : List NotificationOutboxItem)
    → All
        (λ (d : NotificationOutboxItem). IsIn d items × (Outbox.is_due now d ≡ true))
        (Outbox.due_rows now limit items)
unfolding Outbox.due_rows
due_rows-AreDue now limit items =
    limit_rows-All _ limit _ (order_by_due-All _ _ (filter-rows (Outbox.is_due now) items))

-- So does a row with the id of one that a claim takes.
pub one_of-is_due :
    (now : Time) (items due : List NotificationOutboxItem)
    → ((id : Uuid) → rows_affected (has_id id) items ≤ 1)
    → All (λ (d : NotificationOutboxItem). IsIn d items × (Outbox.is_due now d ≡ true)) due
    → (i : NotificationOutboxItem) → IsIn i items
    → Outbox.is_one_of due i ≡ true
    → Outbox.is_due now i ≡ true
one_of-is_due now items [] ids h i m t = absurd (false≢true t)
one_of-is_due now items (d ∷ due) ids h i m t = elim (Bool-cases (d.id == i.id)) [
  | inl same ↦
      let e : d ≡ i = eq_of_rows_affected (has_id i.id) h.0.0 m (ids i.id) same (ground arith) in
      rw (← e) h.0.1
  | inr other ↦ one_of-is_due now items due ids h.1 i m (rw other at t)
]
