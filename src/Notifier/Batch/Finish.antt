-- ===== src/Notifier/Batch/Finish.antt =====
-- What a round of the dispatcher leaves in the outbox.
use mathlib.Core.Bool.{false≢true}
use coin_listener.Prelude.{
  ℕ, ◌≤◌, ◌<◌, ◌≡◌, refl, Bool, true, false, List, [], ◌∷◌, arith, if◌then◌else◌, leb, ◌==◌, All,
  Bool-cases, inl, inr, IsIn, sym, ◌∙◌,
}
use coin_listener.Core.Error.{AppResult, ok, err, error_text}
use coin_listener.Core.Clock.{Time}
use coin_listener.Core.Models.{Uuid, NotificationOutboxItem, NotifyEventTask}
use coin_listener.Storage.Sql.{
  update_where, rows_affected, IsIn-update_where, IsIn-update_where_cases,
}
use coin_listener.Storage.Sql.Count.{rows_affected-IsIn}
use coin_listener.Storage.Outbox
use coin_listener.Storage.Outbox.Invariant.{IsOutbox, has_id}
use coin_listener.Storage.Outbox.Updates.{
  mark_delivered-IsOutbox, mark_retryable-IsOutbox, mark_failed-IsOutbox,
}
use coin_listener.Notifier.Batch
use coin_listener.Notifier.Batch.{NotificationOutboxDispatcherConfig}

-- The row that an item becomes.
abbrev pub item_after :
    Time
    → ℕ
    → Time
    → NotificationOutboxItem
    → AppResult ℕ
    → NotificationOutboxItem
    → NotificationOutboxItem
item_after clock max_attempts now i (ok n) = Outbox.delivered_item clock now
item_after clock max_attempts now i (err e) =
    if leb max_attempts i.attempt_count
    then Outbox.failed_item clock (error_text e)
    else Outbox.retryable_item clock (Batch.notification_outbox_next_attempt_at now i.attempt_count)
        (error_text e)

module _ (clock : Time) (max_attempts : ℕ) (now : Time) (i : NotificationOutboxItem)
    (items : List NotificationOutboxItem) where
  finish_item-eq :
      (r : AppResult ℕ)
      → Batch.finish_item clock max_attempts now i r items
        ≡ Outbox.finish_where i.id (item_after clock max_attempts now i r) items
  unfolding Batch.finish_item Outbox.mark_notification_outbox_delivered
      Outbox.mark_notification_outbox_failed Outbox.mark_notification_outbox_retryable
      Batch.notification_outbox_should_fail
  finish_item-eq (ok n) = refl
  finish_item-eq (err e) = elim (Bool-cases (leb max_attempts i.attempt_count)) [
    | inl spent ↦ rw spent refl
    | inr left ↦ rw left refl
  ]

  finish_item-IsOutbox :
      (r : AppResult ℕ)
      → IsOutbox items
      → IsOutbox (Batch.finish_item clock max_attempts now i r items).1
  unfolding Batch.finish_item
  finish_item-IsOutbox (ok n) h = mark_delivered-IsOutbox clock i.id items h now
  finish_item-IsOutbox (err e) h =
      elim (Bool-cases (Batch.notification_outbox_should_fail i.attempt_count max_attempts)) [
        | inl spent ↦ rw spent (mark_failed-IsOutbox clock i.id items h (error_text e))
        | inr left ↦ rw left (mark_retryable-IsOutbox clock i.id items h _ (error_text e))
      ]

  finished_not_processing :
      (r : AppResult ℕ) (j : NotificationOutboxItem)
      → Outbox.is_processing (item_after clock max_attempts now i r j).status ≡ false
  unfolding Outbox.delivered_item Outbox.failed_item Outbox.retryable_item
  finished_not_processing (ok n) j = refl
  finished_not_processing (err e) j = elim (Bool-cases (leb max_attempts i.attempt_count)) [
    | inl spent ↦ rw spent refl
    | inr left ↦ rw left refl
  ]

-- Where an UPDATE leaves no row that it takes processing, a row that is processing was not taken.
pub processing-update_where :
    (test : NotificationOutboxItem → Bool) (set : NotificationOutboxItem → NotificationOutboxItem)
    (j : NotificationOutboxItem) (items : List NotificationOutboxItem)
    → ((k : NotificationOutboxItem) → Outbox.is_processing (set k).status ≡ false)
    → IsIn j (update_where test set items)
    → Outbox.is_processing j.status ≡ true
    → IsIn j items × (test j ≡ false)
processing-update_where test set j items ends m p =
    elim (IsIn-update_where_cases test set items m) [
      | inl kept ↦ kept
      | inr (k, n, yes', e) ↦ absurd (false≢true (sym (ends k) ∙ rw e at p))
    ]

abbrev pub IsReady : List NotificationOutboxItem → NotificationOutboxItem → Type 0
IsReady items c = IsIn c items × (Outbox.is_processing c.status ≡ true)

module _ (clock : Time) (max_attempts : ℕ) (now : Time) (i : NotificationOutboxItem)
    (items : List NotificationOutboxItem) (r : AppResult ℕ) where
  finish_item-ok : IsReady items i → (Batch.finish_item clock max_attempts now i r items).0 ≡ ok tt
  finish_item-ok (m, p) =
      let found = rows_affected-IsIn (Outbox.is_claimed i.id) m (ground arith) in
      rw (finish_item-eq clock max_attempts now i items r) (
        unfold Outbox.finish_where Outbox.ensure_notification_outbox_updated in
        rw (not_zero found) refl)
    where
      not_zero : {n : ℕ} → 0 < n → (n == 0) ≡ false
      not_zero h = ground arith

  finish_item-keeps :
      (c : NotificationOutboxItem)
      → IsReady items c
      → (c.id == i.id) ≡ false
      → IsReady (Batch.finish_item clock max_attempts now i r items).1 c
  finish_item-keeps c (m, p) other = rw (finish_item-eq clock max_attempts now i items r) (
      unfold Outbox.finish_where in
      (IsIn-update_where (Outbox.is_claimed i.id) _ m (ground arith), p))

  finish_item-rest :
      (j : NotificationOutboxItem)
      → IsIn j (Batch.finish_item clock max_attempts now i r items).1
      → Outbox.is_processing j.status ≡ true
      → IsIn j items × ((i.id == j.id) ≡ false)
  finish_item-rest j m p =
      let m' : IsIn j (Outbox.finish_where i.id (item_after clock max_attempts now i r) items).1 =
        rw (finish_item-eq clock max_attempts now i items r) at m in
      finish_where-rest m'
    where
      finish_where-rest :
          IsIn j (Outbox.finish_where i.id (item_after clock max_attempts now i r) items).1
          → IsIn j items × ((i.id == j.id) ≡ false)
      finish_where-rest m' =
          let (n, t) =
            processing-update_where (Outbox.is_claimed i.id) (item_after clock max_attempts now i r)
              j items (finished_not_processing clock max_attempts now i items r)
              (unfold Outbox.finish_where in m') p in
          (n, ground arith)

  IsReady-rest :
      (cs : List NotificationOutboxItem)
      → All (IsReady items) cs
      → rows_affected (has_id i.id) cs ≡ 0
      → All (IsReady (Batch.finish_item clock max_attempts now i r items).1) cs
  unfolding rows_affected
  IsReady-rest [] h z = tt
  IsReady-rest (c ∷ cs) h z =
      (finish_item-keeps c h.0 (ground arith), IsReady-rest cs h.1 (ground arith))

distinct_rest :
    (i : NotificationOutboxItem) (cs : List NotificationOutboxItem)
    → ((id : Uuid) → rows_affected (has_id id) (i ∷ cs) ≤ 1)
    → (rows_affected (has_id i.id) cs ≡ 0) × ((id : Uuid) → rows_affected (has_id id) cs ≤ 1)
unfolding rows_affected
distinct_rest i cs d = (
  (let e = d i.id in let t : (i.id == i.id) ≡ true = ground arith in omega (arith, rw t at e)),
  (λ id. let e = d id in omega (arith, e)),
)

module _ {ℓ} {D : Type ℓ} (process : NotifyEventTask → Time → D → AppResult ℕ × D)
    (clock now : Time) (max_attempts : ℕ) where
  -- The loop ends with no error, keeps the outbox in order, and finishes every item of its list.
  pub process_items-finishes :
      (cs items : List NotificationOutboxItem) (d : D)
      → IsOutbox items
      → All (IsReady items) cs
      → ((id : Uuid) → rows_affected (has_id id) cs ≤ 1)
      → let out = Batch.process_items process clock now max_attempts cs (d, items) in
        (out.0 ≡ ok tt)
        × IsOutbox out.1.1
        × ((j : NotificationOutboxItem)
            → IsIn j out.1.1
            → Outbox.is_processing j.status ≡ true
            → IsIn j items × (Outbox.is_one_of cs j ≡ false))
  unfolding Batch.process_items
  process_items-finishes [] items d h ready distinct = (refl, h, λ j m p. (m, refl))
  process_items-finishes (i ∷ cs) items d h ready distinct =
      let (r, d') = process (Batch.notify_task_from_outbox_item i) now d in
      let (z, distinct') = distinct_rest i cs distinct in
      let (e, h', rest) =
        process_items-finishes cs (Batch.finish_item clock max_attempts now i r items).1 d'
          (finish_item-IsOutbox clock max_attempts now i items r h)
          (IsReady-rest clock max_attempts now i items r cs ready.1 z) distinct' in
      rw (finish_item-ok clock max_attempts now i items r ready.0) (
        e,
        h',
        λ j m p.
            let (n, t) = rest j m p in
            let (o, u) = finish_item-rest clock max_attempts now i items r j n p in (o, rw u t),
      )
