-- ===== src/Storage/ScanQueue.antt =====
-- backend/crates/storage/src/scan_queue.rs: the Redis list that wakes the workers. A script runs as a
-- whole on the list, its head on the left; a command that the connection fails is not run.
pub mod Wake
use coin_listener.Prelude.{Bool, true, false, List, [], ◌∷◌, Option, none, some, if◌then◌else◌, any}
use coin_listener.Prelude.Text.{Text, text_eq, codes}
use coin_listener.Core.Error.{AppResult, ok, err, redis}

abbrev pub scan_wake_signal_payload : Text
scan_wake_signal_payload = codes "wake"

abbrev pub is_wake : Text → Bool
is_wake value = text_eq value scan_wake_signal_payload

-- `failure` is what the connection fails with, if it does.
unfoldable pub signal : Option Text → List Text → AppResult (Unit {0}) × List Text
signal (some failure) values = (err (redis failure), values)
signal none values =
    (ok tt, if any is_wake values then values else scan_wake_signal_payload ∷ values)

-- BRPOP: the last value, and the list without it.
abbrev pub after_value : Text → Option (Text × List Text) → Option (Text × List Text)
after_value v none = some (v, [])
after_value v (some (last, rest)) = some (last, v ∷ rest)

unfoldable pub brpop : List Text → Option (Text × List Text)
brpop [] = none
brpop (v ∷ vs) = after_value v (brpop vs)

abbrev legacy_payload : Text
legacy_payload = codes "legacy Redis scan task payload found in wakeup queue"

-- `is_task` says which payloads serde reads as a task. An empty list is a wait that times out.
unfoldable pub received : (Text → Bool) → Text → AppResult Bool
received is_task payload =
    if is_wake payload
    then ok true
    else if is_task payload
    then err (redis legacy_payload)
    else ok true

abbrev pub after_pop :
    (Text → Bool) → List Text → Option (Text × List Text) → AppResult Bool × List Text
after_pop is_task values none = (ok false, values)
after_pop is_task values (some (payload, rest)) = (received is_task payload, rest)

unfoldable pub wait_for_signal :
    (Text → Bool) → Option Text → List Text → AppResult Bool × List Text
wait_for_signal is_task (some failure) values = (err (redis failure), values)
wait_for_signal is_task none values = after_pop is_task values (brpop values)
