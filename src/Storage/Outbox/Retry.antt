-- ===== src/Storage/Outbox/Retry.antt =====
-- The manual retry of an outbox row, on each of its branches.
use coin_listener.Prelude.{
  ◌≡◌, ◌⊎◌, refl, false, List, Option, none, some, Bool-cases, inl, inr, IsIn, sym, ◌∙◌,
}
use mathlib.Core.Bool.{false≢true}
use coin_listener.Prelude.Text.{codes}
use coin_listener.Core.Error.{AppResult, ok, err, validation, not_found}
use coin_listener.Core.Clock.{Time}
use coin_listener.Core.Models.{Uuid, NotificationOutboxItem}
use coin_listener.Storage.Sql.{IsIn-updated, IsIn-update_where}
use coin_listener.Storage.Outbox
use coin_listener.Storage.Outbox.{first_item}
use coin_listener.Storage.Outbox.Invariant.{IsOutbox}
use coin_listener.Storage.Outbox.Retried.{
  IsFirst, first_item-IsFirst, IsRow, IsRetryable, IsRetryOf, IsRow-iff, allowed_iff,
  retried-IsOutbox, retried-IsRetryOf, allows_iff,
}

module _ (clock : Time) (tenant id : Uuid) (now : Time) where
  module _ (before_update before_end : List NotificationOutboxItem → List NotificationOutboxItem)
      (items : List NotificationOutboxItem) where
    abbrev NoRow : List NotificationOutboxItem → Type 0
    NoRow table = (j : NotificationOutboxItem) → IsIn j table → IsRow tenant id j → ⊥

    abbrev Result : Type 0
    Result = AppResult NotificationOutboxItem × List NotificationOutboxItem

    -- Nothing is there, and nothing is changed.
    abbrev pub IsMissing : Result → Type 0
    IsMissing out = NoRow items × (out ≡ (err (not_found (codes "notification outbox")), items))

    abbrev pub IsRefused : Result → Type 0
    IsRefused out =
        (i : NotificationOutboxItem) × IsIn i items
        × IsRow tenant id i
        × (IsRetryable i → ⊥)
        × (out ≡ (
          err (
              validation
                (codes "only failed or retryable notification outbox rows can be retried")),
          items,
        ))

    -- The rows that are not the tenant's row are as they were.
    abbrev KeepsOthers : List NotificationOutboxItem → Type 0
    KeepsOthers table =
        (j : NotificationOutboxItem)
        → IsIn j (before_update items)
        → (IsRow tenant id j → ⊥)
        → IsIn j table

    -- The row was retryable at the UPDATE, and the answer is its retry.
    abbrev pub IsRetried : Result → Type 0
    IsRetried out =
        (i : NotificationOutboxItem) × IsIn i (before_update items)
        × IsRow tenant id i
        × IsRetryable i
        × ((k : NotificationOutboxItem) × IsRetryOf now i k × (out.0 ≡ ok k) × IsIn k out.1)
        × KeepsOthers out.1
        × IsOutbox out.1

    -- Another statement was first: the UPDATE finds no row to retry.
    abbrev pub IsMissed : Result → Type 0
    IsMissed out =
        ((j : NotificationOutboxItem)
          → IsIn j (before_update items)
          → IsRow tenant id j
          → IsRetryable j
          → ⊥)
        × (out.1 ≡ before_end (before_update items))
        × (((j : NotificationOutboxItem) × IsIn j out.1
              × IsRow tenant id j
              × (out.0
                  ≡ err (
                      validation (
                        codes "only failed or retryable notification outbox rows can be retried"))))
            ⊎ (NoRow out.1 × (out.0 ≡ err (not_found (codes "notification outbox")))))

    missed :
        ((j : NotificationOutboxItem)
          → IsIn j (before_update items)
          → Outbox.allows_retry_of tenant id j ≡ false)
        → IsMissed (
            Outbox.after_update clock tenant id now before_update before_end
              (before_update items)
              none)
    unfolding Outbox.after_update Outbox.retry_notification_outbox_update_miss_error
    missed free = (
      λ j m r t. false≢true (sym (free j m) ∙ (allows_iff tenant id j).1 r t),
      refl,
      at_end (first_item (Outbox.is_row_of tenant id) (before_end (before_update items)))
          (first_item-IsFirst (Outbox.is_row_of tenant id) (before_end (before_update items))),
    )
      where
        at_end :
            (o : Option NotificationOutboxItem)
            → IsFirst (Outbox.is_row_of tenant id) (before_end (before_update items)) o
            → (((j : NotificationOutboxItem) × IsIn j (before_end (before_update items))
                  × IsRow tenant id j
                  × (◌≡◌ {A = AppResult NotificationOutboxItem}
                      (err
                        (Outbox.retry_notification_outbox_update_miss_error (Outbox.status_of o)))
                      (err (
                        validation (
                          codes
                            "only failed or retryable notification outbox rows can be retried")))))
                ⊎ (NoRow (before_end (before_update items))
                    × (◌≡◌ {A = AppResult NotificationOutboxItem}
                        (err
                          (Outbox.retry_notification_outbox_update_miss_error (Outbox.status_of o)))
                        (err (not_found (codes "notification outbox"))))))
        at_end none h = inr (λ j m r. false≢true (sym (h j m) ∙ (IsRow-iff tenant id j).1 r), refl)
        at_end (some j) (m, t) = inl (j, m, (IsRow-iff tenant id j).0 t, refl)

    not_taken :
        (j : NotificationOutboxItem)
        → (IsRow tenant id j → ⊥)
        → Outbox.allows_retry_of tenant id j ≡ false
    not_taken j other = elim (Bool-cases (Outbox.allows_retry_of tenant id j)) [
      | inl taken ↦ absurd (other ((allows_iff tenant id j).0 taken).0)
      | inr free ↦ free
    ]

    updated :
        IsOutbox (before_update items)
        → (o : Option NotificationOutboxItem)
        → IsFirst (Outbox.allows_retry_of tenant id) (before_update items) o
        → let out =
            Outbox.after_update clock tenant id now before_update before_end
              (before_update items)
              o in
          IsRetried out ⊎ IsMissed out
    unfolding Outbox.after_update
    updated ordered none h = inr (missed h)
    updated ordered (some i) (m, t) =
        let (row, may) = (allows_iff tenant id i).0 t in
        inl (
          i,
          m,
          row,
          may,
          (
            Outbox.retried_item clock now i,
            retried-IsRetryOf clock now i,
            refl,
            IsIn-updated (Outbox.allows_retry_of tenant id) (Outbox.retried_item clock now) m t,
          ),
          (λ j n other.
              IsIn-update_where (Outbox.allows_retry_of tenant id) (Outbox.retried_item clock now) n
                (not_taken j other)),
          retried-IsOutbox clock tenant id now (before_update items) ordered,
        )

    -- A manual retry, with any statements of others between its own, of which those before its UPDATE
    -- leave the outbox in order, comes to one of four ends. The tenant has no such row: an error, and
    -- nothing changed. The row has not failed and does not wait for another attempt: it is refused,
    -- and nothing changed. The row may be retried when the UPDATE runs: the answer is the row made due
    -- at `now`, with its error cleared, which is in the table, all other rows are as the UPDATE found
    -- them, and the outbox is in order. Or another statement was first: the retry changes nothing, and says whether the row is still there.
    pub retry_notification_outbox-branches :
        IsOutbox (before_update items)
        → let out =
            Outbox.retry_notification_outbox clock tenant id now before_update before_end items in
          (IsMissing out ⊎ IsRefused out) ⊎ (IsRetried out ⊎ IsMissed out)
    unfolding Outbox.retry_notification_outbox Outbox.after_status
    retry_notification_outbox-branches ordered =
        of_status (first_item (Outbox.is_row_of tenant id) items)
          (first_item-IsFirst (Outbox.is_row_of tenant id) items)
      where
        of_status :
            (o : Option NotificationOutboxItem)
            → IsFirst (Outbox.is_row_of tenant id) items o
            → let out =
                Outbox.after_status clock tenant id now before_update before_end items
                  (Outbox.status_of o) in
              (IsMissing out ⊎ IsRefused out) ⊎ (IsRetried out ⊎ IsMissed out)
        of_status none h =
            inl (inl (λ j m r. false≢true (sym (h j m) ∙ (IsRow-iff tenant id j).1 r), refl))
        of_status (some i) (m, t) =
            elim (Bool-cases (Outbox.notification_outbox_status_allows_manual_retry i.status)) [
              | inl may ↦ rw may (
                  inr (
                    updated ordered
                      (first_item (Outbox.allows_retry_of tenant id) (before_update items))
                      (first_item-IsFirst (Outbox.allows_retry_of tenant id)
                        (before_update items))))
              | inr may_not ↦ rw may_not (
                  inl (
                    inr (
                      i,
                      m,
                      (IsRow-iff tenant id i).0 t,
                      (λ r. false≢true (sym may_not ∙ (allowed_iff i.status).1 r)),
                      refl,
                    )))
            ]
