-- ===== src/Storage/Outbox/Updates.antt =====
-- Each statement on the outbox keeps it in order.
use coin_listener.Prelude.{ℕ, ◌≡◌, refl, true, List, arith, any, Bool-cases, inl, inr}
use coin_listener.Prelude.Text.{Text}
use coin_listener.Core.Clock.{Time}
use coin_listener.Core.Models.{Uuid, NotificationOutboxItem}
use coin_listener.Storage.Sql.{rows_affected, All-append}
use coin_listener.Storage.Sql.Count.{rows_affected-append_le_one, rows_affected-any}
use coin_listener.Storage.Outbox
use coin_listener.Storage.Outbox.Invariant.{
  IsItem, IsOutbox, has_id, update-IsOutbox, due_rows-AreDue, one_of-is_due,
}

claimed-IsItem :
    (clock now : Time) (w : Text) (i : NotificationOutboxItem)
    → IsItem i
    → Outbox.is_due now i ≡ true
    → IsItem (Outbox.claimed_item clock now w i)
unfolding Outbox.claimed_item
claimed-IsItem clock now w i h due = ground arith

pub claim-IsOutbox :
    (clock now : Time) (w : Text) (limit : ℕ) (items : List NotificationOutboxItem)
    → IsOutbox items
    → IsOutbox (Outbox.claim_due_notification_outbox clock now w limit items).1
unfolding Outbox.claim_due_notification_outbox
claim-IsOutbox clock now w limit items h =
    let due = Outbox.due_rows now limit items in
    update-IsOutbox (Outbox.is_one_of due) (Outbox.claimed_item clock now w) items
      (λ i m r t.
        claimed-IsItem clock now w i r
          (one_of-is_due now items due h.ids (due_rows-AreDue now limit items) i m t))
      (λ i. refl) (λ i. refl) h

finish-IsOutbox :
    (id : Uuid) (set : NotificationOutboxItem → NotificationOutboxItem)
    (items : List NotificationOutboxItem)
    → ((i : NotificationOutboxItem) → IsItem i → Outbox.is_claimed id i ≡ true → IsItem (set i))
    → ((i : NotificationOutboxItem) → (set i).id ≡ i.id)
    → ((i : NotificationOutboxItem) → (set i).event_id ≡ i.event_id)
    → IsOutbox items
    → IsOutbox (Outbox.finish_where id set items).1
unfolding Outbox.finish_where
finish-IsOutbox id set items row same_id same_event =
    update-IsOutbox (Outbox.is_claimed id) set items (λ i m r t. row i r t) same_id same_event

module _ (clock : Time) (id : Uuid) (items : List NotificationOutboxItem) (h : IsOutbox items) where
  pub mark_delivered-IsOutbox :
      (now : Time) → IsOutbox (Outbox.mark_notification_outbox_delivered clock id now items).1
  unfolding Outbox.mark_notification_outbox_delivered
  mark_delivered-IsOutbox now =
      finish-IsOutbox id (Outbox.delivered_item clock now) items
        (λ i r t. unfold Outbox.delivered_item in ground arith) (λ i. refl) (λ i. refl) h

  pub mark_retryable-IsOutbox :
      (t : Time) (e : Text)
      → IsOutbox (Outbox.mark_notification_outbox_retryable clock id t e items).1
  unfolding Outbox.mark_notification_outbox_retryable
  mark_retryable-IsOutbox t e =
      finish-IsOutbox id (Outbox.retryable_item clock t e) items
        (λ i r g. unfold Outbox.retryable_item in ground arith) (λ i. refl) (λ i. refl) h

  pub mark_failed-IsOutbox :
      (e : Text) → IsOutbox (Outbox.mark_notification_outbox_failed clock id e items).1
  unfolding Outbox.mark_notification_outbox_failed
  mark_failed-IsOutbox e =
      finish-IsOutbox id (Outbox.failed_item clock e) items
        (λ i r g. unfold Outbox.failed_item in ground arith) (λ i. refl) (λ i. refl) h

pub release-IsOutbox :
    (clock stale_before t : Time) (items : List NotificationOutboxItem)
    → IsOutbox items
    → IsOutbox (Outbox.release_stale_notification_outbox clock stale_before t items).1
unfolding Outbox.release_stale_notification_outbox
release-IsOutbox clock stale_before t items =
    update-IsOutbox (Outbox.is_stale stale_before) (Outbox.released_item clock t) items
      (λ i m r g. unfold Outbox.released_item in ground arith) (λ i. refl) (λ i. refl)

pub insert-IsOutbox :
    (id : Uuid) (clock : Time) (tenant event : Uuid) (items : List NotificationOutboxItem)
    → rows_affected (has_id id) items ≡ 0
    → IsOutbox items
    → IsOutbox (Outbox.insert_notification_outbox_for_event id clock tenant event items)
insert-IsOutbox id clock tenant event items fresh h =
    unfold Outbox.insert_notification_outbox_for_event in
    elim (Bool-cases (any (Outbox.is_of_event event) items)) [
      | inl taken ↦ rw taken h
      | inr free ↦ rw free (record {
        rows = All-append IsItem items _ h.rows (unfold Outbox.new_outbox_item in ground arith);
        ids = λ n.
            rows_affected-append_le_one (has_id n) items _ (h.ids n)
              (λ t. let e : id ≡ n = ground arith in rw (← e) fresh);
        events = λ n. rows_affected-append_le_one (Outbox.is_of_event n) items _ (h.events n) (λ t.
            let e : event ≡ n = ground arith in
            rw (← e) (rows_affected-any (Outbox.is_of_event event) items free));
      })
    ]
