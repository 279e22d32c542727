-- ===== src/Storage/ScanTables/Recorded.antt =====
-- What a write of a scan keeps: the events that are recorded, and the cursors.
use coin_listener.Prelude.{◌≡◌, refl, true, any, Bool-cases, inl, inr, ◌∙◌, some}
use coin_listener.Prelude.Text.{Text}
use coin_listener.Core.Models.{AddressEventDraft}
use coin_listener.Storage.Outbox.Events
use coin_listener.Storage.Outbox.Events.Once.{any-append_left, any-append_last, conflicts_own}
use coin_listener.Storage.ScanTables.{ScanTables, NewRows, insert_event}

-- The event of the draft is in the table: it, or one that stands for it.
abbrev pub IsRecorded : AddressEventDraft → ScanTables → Type 0
IsRecorded draft s = any (Events.conflicts draft) s.recorded.events ≡ true

abbrev pub KeepsEvents : ScanTables → ScanTables → Type 0
KeepsEvents s t = (d : AddressEventDraft) → IsRecorded d s → IsRecorded d t

-- Events stay, cursors do not move.
abbrev pub Keeps : ScanTables → ScanTables → Type 0
Keeps s t = KeepsEvents s t × (t.cursors ≡ s.cursors)

pub Keeps-refl : (s : ScanTables) → Keeps s s
Keeps-refl s = (λ d h. h, refl)

pub Keeps-trans : (s t u : ScanTables) → Keeps s t → Keeps t u → Keeps s u
Keeps-trans s t u (h, e) (k, f) = (λ d r. k d (h d r), f ∙ e)

pub insert_event-lem :
    (rows : NewRows) (draft : AddressEventDraft) (hash : Text) (s : ScanTables)
    → draft.tx_hash ≡ some hash
    → Keeps s (insert_event rows draft s).1 × IsRecorded draft (insert_event rows draft s).1
unfolding insert_event Events.insert_event_and_outbox_if_not_exists
insert_event-lem rows draft hash s h =
    elim (Bool-cases (any (Events.conflicts draft) s.recorded.events)) [
      | inl taken ↦ rw taken ((λ d r. r, refl), taken)
      | inr free ↦ rw free (
        (λ d r. any-append_left (Events.conflicts d) s.recorded.events _ r, refl),
        any-append_last (Events.conflicts draft) s.recorded.events _
            (conflicts_own (rows.event_id s.recorded) (rows.clock s) draft hash h),
      )
    ]
