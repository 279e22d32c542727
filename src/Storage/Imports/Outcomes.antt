-- ===== src/Storage/Imports/Outcomes.antt =====
-- The outcome of an attempt is final.
use mathlib.Core.Bool.{false≢true}
use coin_listener.Prelude.{
  sym, refl, ◌≡◌, Bool, true, false, List, Option, none, some, arith, IsIn, Bool-cases, inl, inr,
  ◌∙◌,
}
use coin_listener.Prelude.Text.{Text}
use coin_listener.Core.Clock.{Time}
use coin_listener.Core.Models.{Uuid}
use coin_listener.Storage.Sql.{update_where, IsIn-update_where, IsIn-updated}
use coin_listener.Storage.Imports.Tasks
use coin_listener.Storage.Imports.Tasks.{ImportTables, ImportTask, ImportAttempt, is_pending}

-- The statements, and any other that writes tasks alone: claims, renewals, refreshed counts.
pub data Op : Type 0 where
  success : Uuid → Uuid → Uuid → Op
  success_with_lock : Uuid → Uuid → Text → Uuid → Uuid → Op
  failure : Uuid → Uuid → Option Uuid → Option Text → Text → Text → Op
  cancel : Uuid → Uuid → Op
  write_tasks : List ImportTask → Op

unfoldable pub run_op : Time → Op → ImportTables → ImportTables
run_op clock (success tenant attempt address) s =
    (Tasks.mark_import_attempt_success clock tenant attempt address s).1
run_op clock (success_with_lock tenant task worker attempt address) s =
    (Tasks.mark_success_with_lock clock tenant task worker attempt address s).1
run_op clock (failure tenant attempt id worker code message) s =
    (Tasks.mark_import_attempt_failed_with_lock clock tenant attempt id worker code message s).1
run_op clock (cancel tenant id) s = (Tasks.cancel_watched_address_import clock tenant id s).1
run_op clock (write_tasks tasks) s = record s { tasks = tasks }

-- The tables that the statements lead to.
pub data Reach (from : ImportTables) : ImportTables → Type 0 where
  here : Reach from from
  step : {s : ImportTables} (clock : Time) (op : Op) → Reach from s → Reach from (run_op clock op s)

-- `b` is the attempt `a` with its outcome; only `updated_at` may differ.
pub record HasOutcomeOf (a b : ImportAttempt) : Type 0 where
  pub id : b.id ≡ a.id
  pub status : b.status ≡ a.status
  pub address : b.watched_address_id ≡ a.watched_address_id
  pub code : b.error_code ≡ a.error_code
  pub message : b.error_message ≡ a.error_message

abbrev pub Keeps : ImportAttempt → List ImportAttempt → Type 0
Keeps a attempts = (b : ImportAttempt) × IsIn b attempts × HasOutcomeOf a b

update-Keeps :
    (test : ImportAttempt → Bool) (set : ImportAttempt → ImportAttempt) (a : ImportAttempt)
    (attempts : List ImportAttempt)
    → ((b : ImportAttempt) → is_pending b.status ≡ false → test b ≡ true → HasOutcomeOf b (set b))
    → is_pending a.status ≡ false
    → Keeps a attempts
    → Keeps a (update_where test set attempts)
update-Keeps test set a attempts same final (b, m, h) =
    let still : is_pending b.status ≡ false = rw h.status final in
    elim (Bool-cases (test b)) [
      | inr no' ↦ (b, IsIn-update_where test set m no', h)
      | inl yes' ↦
          let k = same b still yes' in
          (
            set b,
            IsIn-updated test set m yes',
            record {
              id = k.id ∙ h.id;
              status = k.status ∙ h.status;
              address = k.address ∙ h.address;
              code = k.code ∙ h.code;
              message = k.message ∙ h.message;
            },
          )
    ]

-- A mark takes an attempt that has its outcome only in a cancelled task, and then keeps it.
taken_in_cancelled :
    (id : Option Uuid) (worker : Option Text) (attempt tenant : Uuid) (tasks : List ImportTask)
    (b : ImportAttempt)
    → is_pending b.status ≡ false
    → Tasks.may_mark id worker attempt tenant tasks b ≡ true
    → Tasks.in_cancelled (Tasks.task_of b tasks) ≡ true
unfolding Tasks.may_mark
taken_in_cancelled id worker attempt tenant tasks b final h =
    in_task (Tasks.task_of b tasks) (ground arith)
  where
    in_task :
        (o : Option ImportTask)
        → Tasks.may_mark_in id worker b o ≡ true
        → Tasks.in_cancelled o ≡ true
    in_task none g = g
    in_task (some t) g = ground arith

pending_if_cancellable :
    (task tenant : Uuid) (tasks : List ImportTask) (b : ImportAttempt)
    → Tasks.is_cancellable task tenant tasks b ≡ true
    → is_pending b.status ≡ true
unfolding Tasks.is_cancellable
pending_if_cancellable task tenant tasks b h = ground arith

outcome_later :
    (b : ImportAttempt) (clock : Time) → HasOutcomeOf b (record b { updated_at = clock })
outcome_later b clock = record {
  id = refl;
  status = refl;
  address = refl;
  code = refl;
  message = refl;
}

module _ (clock : Time) (s : ImportTables) (a : ImportAttempt) (final : is_pending a.status ≡ false)
    (k : Keeps a s.attempts) where
  success-Keeps :
      (id : Option Uuid) (worker : Option Text) (attempt tenant address : Uuid)
      → Keeps a (
          update_where
            (Tasks.may_mark id worker attempt tenant s.tasks)
            (Tasks.marked_success clock address s.tasks)
            s.attempts)
  success-Keeps id worker attempt tenant address =
      update-Keeps (Tasks.may_mark id worker attempt tenant s.tasks)
        (Tasks.marked_success clock address s.tasks) a s.attempts
        (λ b still taken.
          unfold Tasks.marked_success in
          rw (taken_in_cancelled id worker attempt tenant s.tasks b still taken)
            (outcome_later b clock))
        final k

  failure-Keeps :
      (id : Option Uuid) (worker : Option Text) (attempt tenant : Uuid) (code message : Text)
      → Keeps a (
          update_where
            (Tasks.may_mark id worker attempt tenant s.tasks)
            (Tasks.marked_failed clock code message s.tasks)
            s.attempts)
  failure-Keeps id worker attempt tenant code message =
      update-Keeps (Tasks.may_mark id worker attempt tenant s.tasks)
        (Tasks.marked_failed clock code message s.tasks) a s.attempts
        (λ b still taken.
          unfold Tasks.marked_failed in
          rw (taken_in_cancelled id worker attempt tenant s.tasks b still taken)
            (outcome_later b clock))
        final k

  cancel-Keeps :
      (tenant id : Uuid)
      → Keeps a (Tasks.cancel_watched_address_import clock tenant id s).1.attempts
  cancel-Keeps tenant id =
      unfold Tasks.cancel_watched_address_import in
      committed-Keeps _ _ (
        update-Keeps (Tasks.is_cancellable id tenant s.tasks) (Tasks.skipped_attempt clock) a
          s.attempts
          (λ b still taken.
            absurd (false≢true (sym still ∙ pending_if_cancellable id tenant s.tasks b taken)))
          final k)
    where
      committed-Keeps :
          (after : ImportTables) (o : Option ImportTask)
          → Keeps a after.attempts
          → Keeps a (Tasks.committed s after o).1.attempts
      committed-Keeps after none h = k
      committed-Keeps after (some t) h = h

  run_op-Keeps : (op : Op) → Keeps a (run_op clock op s).attempts
  unfolding run_op Tasks.mark_import_attempt_success Tasks.mark_success_with_lock
      Tasks.mark_import_attempt_failed_with_lock
  run_op-Keeps (success tenant attempt address) = success-Keeps none none attempt tenant address
  run_op-Keeps (success_with_lock tenant task worker attempt address) =
      success-Keeps (some task) (some worker) attempt tenant address
  run_op-Keeps (failure tenant attempt id worker code message) =
      failure-Keeps id worker attempt tenant code message
  run_op-Keeps (cancel tenant id) = cancel-Keeps tenant id
  run_op-Keeps (write_tasks tasks) = k

-- An attempt that is no longer pending keeps its outcome: after any sequence of marks with or without
-- a lock, by any workers, of cancellations and of other writes of tasks, the table has a row with its
-- id, its status, its watched address and its error.
pub Reach-Keeps :
    (from s : ImportTables) (a : ImportAttempt)
    → Reach from s
    → IsIn a from.attempts
    → is_pending a.status ≡ false
    → Keeps a s.attempts
Reach-Keeps from s a here m final =
    (a, m, record { id = refl; status = refl; address = refl; code = refl; message = refl })
Reach-Keeps from s a (step {s = t} clock op earlier) m final =
    run_op-Keeps clock t a final (Reach-Keeps from t a earlier m final) op
