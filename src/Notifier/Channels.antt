-- ===== src/Notifier/Channels.antt =====
-- The channels of a rule and the plan of a delivery in backend/crates/notifier/src/lib.rs.
pub mod Resolution
use coin_listener.Prelude.{
  ℕ, zero, suc, ◌+◌, Bool, true, false, List, [], ◌∷◌, map, Option, none, some, if◌then◌else◌, ◌==◌,
  any,
}
use coin_listener.Prelude.Text.{Text, codes, text_eq}
use coin_listener.Core.Error.{AppResult, ok, err, ◌>>=◌}
use coin_listener.Core.Clock.{Time}
use coin_listener.Core.Models.{Uuid, NotificationChannel}

pub data ExternalChannelType : Type 0 where
  telegram webhook : ExternalChannelType

pub data NotifyChannelDecision : Type 0 where
  in_app : NotifyChannelDecision
  external : ExternalChannelType → NotifyChannelDecision
  skipped : Text → NotifyChannelDecision

pub data ResolvedNotifyChannel : Type 0 where
  active : NotificationChannel → ResolvedNotifyChannel
  inactive : Uuid → ResolvedNotifyChannel
  missing : Uuid → ResolvedNotifyChannel

pub record NotifyDeliveryPlan : Type 0 where
  pub channel_id : Uuid
  pub channel_type : Option Text
  pub status : Text
  pub last_error : Option Text
  pub create_in_app : Bool
  pub external_channel_type : Option ExternalChannelType

unfoldable pub notify_channel_decision : Text → NotifyChannelDecision
notify_channel_decision channel_type =
    if text_eq channel_type (codes "in_app")
    then in_app
    else if text_eq channel_type (codes "telegram")
    then external telegram
    else if text_eq channel_type (codes "webhook")
    then external webhook
    else skipped (codes "channel type not implemented")

unfoldable pub build_delivery_plan : NotificationChannel → NotifyDeliveryPlan
unfolding notify_channel_decision
build_delivery_plan channel = elim (notify_channel_decision channel.channel_type) [
  | in_app ↦ record {
    channel_id = channel.id;
    channel_type = some channel.channel_type;
    status = codes "sent";
    last_error = none;
    create_in_app = true;
    external_channel_type = none;
  }
  | external channel_type ↦ record {
    channel_id = channel.id;
    channel_type = some channel.channel_type;
    status = codes "processing";
    last_error = none;
    create_in_app = false;
    external_channel_type = some channel_type;
  }
  | skipped last_error ↦ record {
    channel_id = channel.id;
    channel_type = some channel.channel_type;
    status = codes "skipped";
    last_error = some last_error;
    create_in_app = false;
    external_channel_type = none;
  }
]

unfoldable pub build_unavailable_channel_delivery_plan : Uuid → NotifyDeliveryPlan
build_unavailable_channel_delivery_plan channel_id = record {
  channel_id = channel_id;
  channel_type = none;
  status = codes "skipped";
  last_error = some (codes "channel unavailable");
  create_in_app = false;
  external_channel_type = none;
}

unfoldable pub delivery_sent_at : Text → Time → Option Time
delivery_sent_at status now = if text_eq status (codes "sent") then some now else none

unfoldable pub delivery_result_count : List (AppResult (Unit {0})) → AppResult ℕ
delivery_result_count [] = ok 0
delivery_result_count (r ∷ rs) =
    let rest = delivery_result_count rs in r >>= λ u. rest >>= λ n. ok (suc n)

-- `collect` into a map keeps the last channel of an id.
abbrev pub unless_later :
    NotificationChannel → Uuid → Option NotificationChannel → Option NotificationChannel
unless_later c id (some later) = some later
unless_later c id none = if c.id == id then some c else none

unfoldable pub active_by_id : List NotificationChannel → Uuid → Option NotificationChannel
active_by_id [] id = none
active_by_id (c ∷ cs) id = unless_later c id (active_by_id cs id)

abbrev pub exists_id : List NotificationChannel → Uuid → Bool
exists_id cs id = any (λ (c : NotificationChannel). c.id == id) cs

abbrev pub resolution : Option NotificationChannel → Bool → Uuid → ResolvedNotifyChannel
resolution (some c) known id = active c
resolution none known id = if known then inactive id else missing id

unfoldable pub resolve_explicit_rule_channels :
    List Uuid → List NotificationChannel → List NotificationChannel → List ResolvedNotifyChannel
unfolding active_by_id
resolve_explicit_rule_channels channel_ids existing_channels active_channels =
    map (λ id. resolution (active_by_id active_channels id) (exists_id existing_channels id) id)
      channel_ids
