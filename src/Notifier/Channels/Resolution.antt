-- ===== src/Notifier/Channels/Resolution.antt =====
-- Every channel of a rule is resolved, in the rule's order.
use coin_listener.Prelude.{
  ◌≡◌, refl, true, false, List, [], ◌∷◌, map, Option, none, some, arith, ◌==◌, All, Bool-cases, inl,
  inr, IsIn, head, tail,
}
use coin_listener.Core.Models.{Uuid, NotificationChannel}
use coin_listener.Notifier.Channels
use coin_listener.Notifier.Channels.{ResolvedNotifyChannel, active, inactive, missing}

abbrev pub channel_of : ResolvedNotifyChannel → Uuid
channel_of (active c) = c.id
channel_of (inactive id) = id
channel_of (missing id) = id

-- What each answer says of the two lists that were read.
abbrev pub IsResolution :
    List NotificationChannel → List NotificationChannel → ResolvedNotifyChannel → Type 0
IsResolution existing actives (active c) = IsIn c actives
IsResolution existing actives (inactive id) =
    (Channels.exists_id actives id ≡ false) × (Channels.exists_id existing id ≡ true)
IsResolution existing actives (missing id) =
    (Channels.exists_id actives id ≡ false) × (Channels.exists_id existing id ≡ false)

-- The map finds a channel of the id, if there is one.
abbrev IsFound : List NotificationChannel → Uuid → Option NotificationChannel → Type 0
IsFound actives id none = Channels.exists_id actives id ≡ false
IsFound actives id (some c) = IsIn c actives × (c.id ≡ id)

unless_later-IsFound :
    (c : NotificationChannel) (cs : List NotificationChannel) (id : Uuid)
    (o : Option NotificationChannel)
    → IsFound cs id o
    → IsFound (c ∷ cs) id (Channels.unless_later c id o)
unless_later-IsFound c cs id (some later) h = (tail h.0, h.1)
unless_later-IsFound c cs id none h = elim (Bool-cases (c.id == id)) [
  | inl same ↦ rw same (head, ground arith)
  | inr differ ↦ rw differ (rw differ h)
]

active_by_id-IsFound :
    (actives : List NotificationChannel) (id : Uuid)
    → IsFound actives id (Channels.active_by_id actives id)
unfolding Channels.active_by_id
active_by_id-IsFound [] id = refl
active_by_id-IsFound (c ∷ cs) id =
    unless_later-IsFound c cs id (Channels.active_by_id cs id) (active_by_id-IsFound cs id)

resolution-IsResolution :
    (existing actives : List NotificationChannel) (id : Uuid) (o : Option NotificationChannel)
    → IsFound actives id o
    → let answer = Channels.resolution o (Channels.exists_id existing id) id in
      (channel_of answer ≡ id) × IsResolution existing actives answer
resolution-IsResolution existing actives id (some c) h = (h.1, h.0)
resolution-IsResolution existing actives id none h =
    elim (Bool-cases (Channels.exists_id existing id)) [
      | inl known ↦ rw known (refl, (h, known))
      | inr unknown ↦ rw unknown (refl, (h, unknown))
    ]

-- Resolving the channels of a rule answers one entry for each of its ids, in their order; an active
-- entry is one of the active channels, an inactive id is that of an existing channel and of no
-- active one, and a missing id is that of no channel.
pub resolve_explicit_rule_channels-IsResolution :
    (ids : List Uuid) (existing actives : List NotificationChannel)
    → let answers = Channels.resolve_explicit_rule_channels ids existing actives in
      (map channel_of answers ≡ ids) × All (IsResolution existing actives) answers
unfolding Channels.resolve_explicit_rule_channels
resolve_explicit_rule_channels-IsResolution [] existing actives = (refl, tt)
resolve_explicit_rule_channels-IsResolution (id ∷ ids) existing actives =
    let (e, h) =
      resolution-IsResolution existing actives id (Channels.active_by_id actives id)
        (active_by_id-IsFound actives id) in
    let (es, hs) = resolve_explicit_rule_channels-IsResolution ids existing actives in
    (rw (e, es) refl, (h, hs))
