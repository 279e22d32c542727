-- ===== src/Chains/Drafts/Direction.antt =====
-- The direction of a transfer, seen from the watched address.
use mathlib.Core.Bool.{false≢true}
use coin_listener.Prelude.{◌≡◌, ◌≢◌, false, Bool-cases, inl, inr, sym, ◌∙◌}
use coin_listener.Prelude.Text.{Text, codes, text_eq, text_eq_iff, to_lower}
use coin_listener.Core.Models.{ScanAddressContext, Asset}
use coin_listener.Chains.Drafts
use coin_listener.Chains.Drafts.{DecodedErc20Transfer}

pub data IsDirection (watched from to : Text) : Text → Type 0 where
  to_self : from ≡ watched → to ≡ watched → IsDirection watched from to (codes "self")
  incoming : from ≢ watched → to ≡ watched → IsDirection watched from to (codes "in")
  outgoing : from ≡ watched → to ≢ watched → IsDirection watched from to (codes "out")
  elsewhere : from ≢ watched → to ≢ watched → IsDirection watched from to (codes "unknown")

text_ne : (s t : Text) → text_eq s t ≡ false → s ≢ t
text_ne s t h e = false≢true (sym h ∙ (text_eq_iff s t).1 e)

transfer_direction-IsDirection :
    (watched from to : Text)
    → IsDirection watched from to (Drafts.transfer_direction watched from to)
unfolding Drafts.transfer_direction
transfer_direction-IsDirection watched from to = elim (Bool-cases (text_eq from watched)) [
  | inl f ↦ elim (Bool-cases (text_eq to watched)) [
    | inl t ↦ rw (f, t) (to_self ((text_eq_iff from watched).0 f) ((text_eq_iff to watched).0 t))
    | inr t ↦ rw (f, t) (outgoing ((text_eq_iff from watched).0 f) (text_ne to watched t))
  ]
  | inr f ↦ elim (Bool-cases (text_eq to watched)) [
    | inl t ↦ rw (f, t) (incoming (text_ne from watched f) ((text_eq_iff to watched).0 t))
    | inr t ↦ rw (f, t) (elsewhere (text_ne from watched f) (text_ne to watched t))
  ]
]

-- The draft of a token transfer is `self` if the watched address is on both sides, `in` if it only
-- receives, `out` if it only sends and `unknown` if it does neither, whatever the case of the
-- addresses' letters.
pub transfer_event_draft-IsDirection :
    (context : ScanAddressContext) (asset : Asset) (transfer : DecodedErc20Transfer)
    → IsDirection
        (to_lower context.address)
        (to_lower transfer.from_address)
        (to_lower transfer.to_address)
        (Drafts.transfer_event_draft context asset transfer).direction
unfolding Drafts.transfer_event_draft
transfer_event_draft-IsDirection context asset transfer =
    transfer_direction-IsDirection (to_lower context.address) (to_lower transfer.from_address)
      (to_lower transfer.to_address)
