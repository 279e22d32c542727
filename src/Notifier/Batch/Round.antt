-- ===== src/Notifier/Batch/Round.antt =====
-- A whole round of the dispatcher: it finishes what it claims.
use mathlib.Core.Bool.{false≢true}
use native.Mathlib.Nat.{le_trans}
use coin_listener.Prelude.{
  ℕ, zero, suc, ◌-◌, ◌≤◌, ◌≡◌, refl, Bool, true, false, ◌||◌, ap, List, [], ◌∷◌, map, arith, ◌==◌,
  length, filter, All, Bool-cases, inl, inr, IsIn, head, tail, ap, sym, ◌∙◌, length-map,
}
use coin_listener.Prelude.Text.{Text}
use coin_listener.Core.Error.{AppResult, ok}
use coin_listener.Core.Clock.{Time, seconds}
use coin_listener.Core.Models.{Uuid, NotificationOutboxItem, NotifyEventTask}
use coin_listener.Storage.Sql.{update_where, rows_affected, IsIn-updated, IsIn-update_where_cases}
use coin_listener.Storage.Sql.Count.{rows_affected-map_le}
use coin_listener.Storage.Outbox
use coin_listener.Storage.Outbox.Invariant.{IsOutbox, has_id, due_rows-AreDue}
use coin_listener.Storage.Outbox.Updates.{claim-IsOutbox, release-IsOutbox}
use coin_listener.Notifier.Batch
use coin_listener.Notifier.Batch.{NotificationOutboxDispatcherConfig}
use coin_listener.Notifier.Batch.Finish.{IsReady, processing-update_where, process_items-finishes}

module _ (test : NotificationOutboxItem → Bool) where
  insert_by_due-count :
      (a : NotificationOutboxItem) (s : List NotificationOutboxItem)
      → rows_affected test (Outbox.insert_by_due a s) ≡ rows_affected test (a ∷ s)
  unfolding Outbox.insert_by_due rows_affected
  insert_by_due-count a [] = refl
  insert_by_due-count a (b ∷ bs) = elim (Bool-cases (Outbox.precedes b a)) [
    | inl first ↦ rw first (omega (arith, insert_by_due-count a bs))
    | inr later ↦ rw later refl
  ]

  order_by_due-count :
      (s : List NotificationOutboxItem)
      → rows_affected test (Outbox.order_by_due s) ≡ rows_affected test s
  unfolding Outbox.order_by_due rows_affected
  order_by_due-count [] = refl
  order_by_due-count (a ∷ s) =
      let e = insert_by_due-count a (Outbox.order_by_due s) in
      omega (arith, e, order_by_due-count s)

  limit_rows-count :
      (n : ℕ) (s : List NotificationOutboxItem)
      → rows_affected test (Outbox.limit_rows n s) ≤ rows_affected test s
  unfolding Outbox.limit_rows rows_affected
  limit_rows-count zero s = omega arith
  limit_rows-count (suc n) [] = omega arith
  limit_rows-count (suc n) (a ∷ s) = omega (arith, limit_rows-count n s)

  filter-count :
      (guard : NotificationOutboxItem → Bool) (s : List NotificationOutboxItem)
      → rows_affected test (filter guard s) ≤ rows_affected test s
  unfolding rows_affected
  filter-count guard [] = omega arith
  filter-count guard (a ∷ s) = elim (Bool-cases (guard a)) [
    | inl yes' ↦ rw yes' (omega (arith, filter-count guard s))
    | inr no' ↦ rw no' (omega (arith, filter-count guard s))
  ]

  due_rows-count :
      (now : Time) (limit : ℕ) (s : List NotificationOutboxItem)
      → rows_affected test (Outbox.due_rows now limit s) ≤ rows_affected test s
  unfolding Outbox.due_rows
  due_rows-count now limit s =
      let due = filter (Outbox.is_due now) s in
      omega (
        arith,
        limit_rows-count limit (Outbox.order_by_due due),
        order_by_due-count due,
        filter-count (Outbox.is_due now) s,
      )

one_of_member :
    (due : List NotificationOutboxItem) (d : NotificationOutboxItem)
    → IsIn d due
    → Outbox.is_one_of due d ≡ true
one_of_member [] e m = elim m [ ]
one_of_member (d ∷ ds) e head = ground arith
one_of_member (d ∷ ds) e (tail m) = ground (arith, one_of_member ds e m)

module _ (clock now : Time) (w : Text) (items due : List NotificationOutboxItem) where
  abbrev claimed : NotificationOutboxItem → NotificationOutboxItem
  claimed = Outbox.claimed_item clock now w

  claimed-IsReady :
      (ds : List NotificationOutboxItem)
      → All (λ (d : NotificationOutboxItem). IsIn d items × (Outbox.is_due now d ≡ true)) ds
      → ((d : NotificationOutboxItem) → IsIn d ds → Outbox.is_one_of due d ≡ true)
      → All (IsReady (update_where (Outbox.is_one_of due) claimed items)) (map claimed ds)
  claimed-IsReady [] h among = tt
  claimed-IsReady (d ∷ ds) h among = (
    (
      IsIn-updated (Outbox.is_one_of due) claimed h.0.0 (among d head),
      unfold Outbox.claimed_item in refl,
    ),
    claimed-IsReady ds h.1 (λ e m. among e (tail m)),
  )

  one_of_claimed :
      (ds : List NotificationOutboxItem) (k : NotificationOutboxItem)
      → Outbox.is_one_of (map claimed ds) (claimed k) ≡ Outbox.is_one_of ds k
  unfolding Outbox.claimed_item
  one_of_claimed [] k = refl
  one_of_claimed (d ∷ ds) k = ap (λ b. d.id == k.id || b) (one_of_claimed ds k)

  not_claimed_here :
      (j : NotificationOutboxItem)
      → IsIn j (update_where (Outbox.is_one_of due) claimed items)
      → Outbox.is_one_of (map claimed due) j ≡ false
      → IsIn j items
  not_claimed_here j m other =
      elim (IsIn-update_where_cases (Outbox.is_one_of due) claimed items m) [
        | inl (n, no') ↦ n
        | inr (k, n, yes', e) ↦
            absurd (false≢true (sym (rw e at other) ∙ one_of_claimed due k ∙ yes'))
      ]

  claimed_once :
      (limit : ℕ) (id : Uuid)
      → rows_affected (has_id id) items ≤ 1
      → rows_affected (has_id id) (map claimed (Outbox.due_rows now limit items)) ≤ 1
  claimed_once limit id h =
      le_trans
        (rows_affected-map_le (has_id id) claimed (Outbox.due_rows now limit items)
          (λ r m t. same_id r t))
        (le_trans (due_rows-count (has_id id) now limit items) h)
    where
      same_id : (r : NotificationOutboxItem) → has_id id (claimed r) ≡ true → has_id id r ≡ true
      same_id r t = unfold Outbox.claimed_item in t

not_released :
    (clock stale_before now : Time) (items : List NotificationOutboxItem)
    (j : NotificationOutboxItem)
    → IsIn j (Outbox.release_stale_notification_outbox clock stale_before now items).1
    → Outbox.is_processing j.status ≡ true
    → IsIn j items × (Outbox.is_stale stale_before j ≡ false)
unfolding Outbox.release_stale_notification_outbox Outbox.released_item
not_released clock stale_before now items j =
    processing-update_where (Outbox.is_stale stale_before) (Outbox.released_item clock now) j items
      (λ k. refl)

-- From an outbox in order, a round ends with no error of its own, whatever the processing of an
-- item answers, and returns the number of items that it claimed. The outbox is in order afterwards,
-- and each row that is still processing was processing before, unchanged, under a lock that is not
-- stale: no claimed item is left processing.
pub process_notification_outbox_batch-finishes {ℓ} :
    {D : Type ℓ} (process : NotifyEventTask → Time → D → AppResult ℕ × D) (clock now : Time)
    (w : Text) (config : NotificationOutboxDispatcherConfig) (d : D)
    (items : List NotificationOutboxItem)
    → IsOutbox items
    → let stale_before = now - seconds config.stale_lock_seconds in
      let released = (Outbox.release_stale_notification_outbox clock stale_before now items).1 in
      let out = Batch.process_notification_outbox_batch process clock now w config (d, items) in
      (out.0 ≡ ok (length (Outbox.due_rows now config.batch_size released)))
      × IsOutbox out.1.1
      × ((j : NotificationOutboxItem)
          → IsIn j out.1.1
          → Outbox.is_processing j.status ≡ true
          → IsIn j items × (Outbox.is_stale stale_before j ≡ false))
unfolding Batch.process_notification_outbox_batch Outbox.claim_due_notification_outbox
process_notification_outbox_batch-finishes process clock now w config d items h =
    let stale_before = now - seconds config.stale_lock_seconds in
    let released = (Outbox.release_stale_notification_outbox clock stale_before now items).1 in
    let due = Outbox.due_rows now config.batch_size released in
    let h' = release-IsOutbox clock stale_before now items h in
    let (e, o, rest) =
      process_items-finishes process clock now config.max_attempts
        (map (claimed clock now w released due) due)
        (update_where (Outbox.is_one_of due) (claimed clock now w released due) released) d
        (claim-IsOutbox clock now w config.batch_size released h')
        (claimed-IsReady clock now w released due due
          (due_rows-AreDue now config.batch_size released) (one_of_member due))
        (λ id. claimed_once clock now w released due config.batch_size id (h'.ids id)) in
    rw e (
      ap ok (length-map due (claimed clock now w released due)),
      o,
      λ j m p.
          let (n, t) = rest j m p in
          not_released clock stale_before now items j
            (not_claimed_here clock now w released due j n t) p,
    )
