-- ===== src/Storage/Outbox/Events/Once.antt =====
-- An event is recorded once, and never without its notification.
use coin_listener.Prelude.{
  ◌≡◌, refl, Bool, true, ◌||◌, List, [], ◌∷◌, ◌++◌, none, some, arith, any, All, Bool-cases, inl,
  inr,
}
use coin_listener.Prelude.Text.{Text, text_eq_refl}
use coin_listener.Core.Clock.{Time}
use coin_listener.Core.Models.{Uuid, AddressEvent, AddressEventDraft, NotificationOutboxItem}
use coin_listener.Storage.Sql.{All-append}
use coin_listener.Storage.Outbox
use coin_listener.Storage.Outbox.Events
use coin_listener.Storage.Outbox.Events.{EventTables, ℤ, eq_ℤ}

any-append {ℓ} :
    {A : Type ℓ} (test : A → Bool) (xs ys : List A)
    → any test (xs ++ ys) ≡ (any test xs || any test ys)
any-append test [] ys = refl
any-append test (x ∷ xs) ys = elim (Bool-cases (test x)) [
  | inl yes' ↦ rw yes' refl
  | inr no' ↦ rw no' (any-append test xs ys)
]

pub any-append_left {ℓ} :
    {A : Type ℓ} (test : A → Bool) (xs ys : List A)
    → any test xs ≡ true
    → any test (xs ++ ys) ≡ true
any-append_left test xs ys h = rw (any-append test xs ys, h) refl

pub any-append_last {ℓ} :
    {A : Type ℓ} (test : A → Bool) (xs : List A) (x : A)
    → test x ≡ true
    → any test (xs ++ x ∷ []) ≡ true
any-append_last test xs x h = rw (any-append test xs (x ∷ []), h) (or_true (any test xs))
  where
    or_true : (b : Bool) → (b || true) ≡ true
    or_true b = ground arith

-- A draft with a transaction hash conflicts with its own row.
pub conflicts_own :
    (id : Uuid) (clock : Time) (d : AddressEventDraft) (hash : Text)
    → d.tx_hash ≡ some hash
    → Events.conflicts d (Events.event_of_draft id clock d) ≡ true
unfolding Events.conflicts Events.event_of_draft
conflicts_own id clock d hash h =
    rw (h, text_eq_refl hash, text_eq_refl d.event_type) (ground arith)

-- Every event has its row in the outbox.
abbrev pub IsNotified : EventTables → Type 0
IsNotified db = All (λ (e : AddressEvent). any (Outbox.is_of_event e.id) db.outbox ≡ true) db.events

outbox-keeps :
    (id : Uuid) (clock : Time) (tenant event other : Uuid) (items : List NotificationOutboxItem)
    → any (Outbox.is_of_event other) items ≡ true
    → any
        (Outbox.is_of_event other)
        (Outbox.insert_notification_outbox_for_event id clock tenant event items)
      ≡ true
unfolding Outbox.insert_notification_outbox_for_event
outbox-keeps id clock tenant event other items h =
    elim (Bool-cases (any (Outbox.is_of_event event) items)) [
      | inl taken ↦ rw taken h
      | inr free ↦ rw free (any-append_left (Outbox.is_of_event other) items _ h)
    ]

outbox-has :
    (id : Uuid) (clock : Time) (tenant event : Uuid) (items : List NotificationOutboxItem)
    → any
        (Outbox.is_of_event event)
        (Outbox.insert_notification_outbox_for_event id clock tenant event items)
      ≡ true
unfolding Outbox.insert_notification_outbox_for_event Outbox.new_outbox_item
outbox-has id clock tenant event items = elim (Bool-cases (any (Outbox.is_of_event event) items)) [
  | inl taken ↦ rw taken taken
  | inr free ↦ rw free (any-append_last (Outbox.is_of_event event) items _ (ground arith))
]

module _ (id outbox_id : Uuid) (clock : Time) (d : AddressEventDraft) (db : EventTables) where
  notified_still :
      (events : List AddressEvent) (outbox after : List NotificationOutboxItem)
      → ((e : Uuid)
          → any (Outbox.is_of_event e) outbox ≡ true
          → any (Outbox.is_of_event e) after ≡ true)
      → All (λ (e : AddressEvent). any (Outbox.is_of_event e.id) outbox ≡ true) events
      → All (λ (e : AddressEvent). any (Outbox.is_of_event e.id) after ≡ true) events
  notified_still [] outbox after keeps h = tt
  notified_still (e ∷ events) outbox after keeps h =
      (keeps e.id h.0, notified_still events outbox after keeps h.1)

  -- Where every event has its outbox row, it still has one after the insertion, and so has the new
  -- event, if one is recorded.
  pub insert_event_and_outbox-IsNotified :
      IsNotified db
      → IsNotified (Events.insert_event_and_outbox_if_not_exists id outbox_id clock d db).1
  unfolding Events.insert_event_and_outbox_if_not_exists
  insert_event_and_outbox-IsNotified h = elim (Bool-cases (any (Events.conflicts d) db.events)) [
    | inl taken ↦ rw taken h
    | inr free ↦ rw free (
        All-append _ db.events _
          (notified_still db.events db.outbox _
            (λ e t. outbox-keeps outbox_id clock _ _ e db.outbox t) h)
          (outbox-has outbox_id clock _ _ db.outbox, tt))
  ]

  -- After the insertion of a draft that has a transaction hash, whether it was recorded then or was
  -- there before, inserting it again with any ids at any time records nothing and changes neither
  -- table.
  pub insert_event_and_outbox-once :
      (hash : Text) (id' outbox_id' : Uuid) (clock' : Time)
      → d.tx_hash ≡ some hash
      → let after = (Events.insert_event_and_outbox_if_not_exists id outbox_id clock d db).1 in
        Events.insert_event_and_outbox_if_not_exists id' outbox_id' clock' d after ≡ (none, after)
  unfolding Events.insert_event_and_outbox_if_not_exists
  insert_event_and_outbox-once hash id' outbox_id' clock' h =
      elim (Bool-cases (any (Events.conflicts d) db.events)) [
        | inl taken ↦ rw taken (rw taken refl)
        | inr free ↦
            let there =
              any-append_last (Events.conflicts d) db.events (Events.event_of_draft id clock d)
                (conflicts_own id clock d hash h) in
            rw free (rw there refl)
      ]
