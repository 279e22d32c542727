-- ===== src/Storage/Catalog.antt =====
-- The chains and assets that a scan reads, by backend/crates/storage/src/repositories.rs, and the
-- choices that backend/crates/worker/src/lib.rs makes among the assets of an address.
use coin_listener.Prelude.{
  ℕ, Bool, true, false, ◌&&◌, ◌||◌, List, [], ◌∷◌, Option, none, some, if◌then◌else◌, ltb, ◌==◌,
  find, filter, any,
}
use coin_listener.Prelude.Int.{pos, pos_part}
use coin_listener.Prelude.Text.{Text, codes, text_eq}
use coin_listener.Core.Error.{AppResult, ok, err, not_found, validation, ensure}
use coin_listener.Core.Machine.{leb_ℤ}
use coin_listener.Core.Models.{Uuid, Chain, Asset, Provider, ScanAddressContext}
use coin_listener.Storage.Sql.Order.{order_by}

-- The rows of watched_address_assets: an address and an asset that it selects.
pub record Selection : Type 0 where
  pub address_id : Uuid
  pub asset_id : Uuid

-- The tables, which no scan writes. `asset_before` is ORDER BY a.asset_type, a.symbol, a.name.
pub record Catalog : Type 0 where
  pub chains : List Chain
  pub assets : List Asset
  pub selections : List Selection
  pub asset_before : Asset → Asset → Bool

-- `ok_or_else(|| AppError::NotFound(…))`
abbrev pub found : {A : Type 0} → Text → Option A → AppResult A
found what none = err (not_found what)
found what (some a) = ok a

unfoldable pub chain_by_id : Catalog → Uuid → AppResult Chain
chain_by_id catalog id = found (codes "chain") (find (λ (c : Chain). c.id == id) catalog.chains)

-- LIMIT 1 with no order takes some row; here the first of the table.
abbrev is_native_of : Uuid → Asset → Bool
is_native_of chain_id a = a.chain_id == chain_id && text_eq a.asset_type (codes "native")

unfoldable pub native_asset_for_chain : Catalog → Uuid → AppResult Asset
native_asset_for_chain catalog chain_id =
    found (codes "native asset") (find (is_native_of chain_id) catalog.assets)

abbrev is_selected : List Selection → Uuid → Asset → Bool
is_selected selections address_id a =
    any (λ (s : Selection). s.address_id == address_id && s.asset_id == a.id) selections

unfoldable pub selected_assets_for_address : Catalog → Uuid → List Asset
selected_assets_for_address catalog address_id = order_by catalog.asset_before (
    filter
      (λ (a : Asset).
        is_selected catalog.selections address_id a && text_eq a.status (codes "active"))
      catalog.assets)

-- `cmp` on strings: whether the first is less.
unfoldable pub text_lt : Text → Text → Bool
text_lt s [] = false
text_lt [] (d ∷ t) = true
text_lt (c ∷ s) (d ∷ t) = ltb c d || (c == d && text_lt s t)

unfoldable pub symbol_before : Asset → Asset → Bool
unfolding text_lt
symbol_before left right =
    text_lt left.symbol right.symbol
    || (text_eq left.symbol right.symbol && text_lt left.name right.name)

-- `sort_by` is stable: an asset goes after those that are not greater.
unfoldable pub selected_assets_by_type : List Asset → Text → List Asset
selected_assets_by_type selected_assets asset_type =
    order_by (λ x y. symbol_before x y)
      (filter (λ (a : Asset). text_eq a.asset_type asset_type) selected_assets)

unfoldable pub native_asset_selected : List Asset → Asset → Bool
native_asset_selected selected_assets native_asset =
    any (λ (a : Asset). a.id == native_asset.id) selected_assets

unfoldable pub ensure_provider_matches_context :
    Provider → ScanAddressContext → AppResult (Unit {0})
ensure_provider_matches_context provider context =
    ensure (provider.chain_id == context.chain_id)
      (validation (codes "provider chain_id does not match scan context"))

-- The milliseconds of the timeout.
unfoldable pub provider_timeout_duration : Provider → AppResult ℕ
provider_timeout_duration provider =
    if leb_ℤ provider.timeout_ms (pos 0)
    then err (validation (codes "timeout_ms must be positive"))
    else ok (pos_part provider.timeout_ms)
