-- ===== src/Storage/Imports.antt =====
-- backend/crates/storage/src/address_imports.rs: the checks of an import request, and the plan of its
-- attempts, one for each row and chain. White space in an address is ASCII.

pub mod Plan
pub mod Tasks
pub mod Outcomes
use coin_listener.Prelude.{
  ℕ, ◌*◌, Bool, true, false, not, any, List, [], ◌∷◌, ◌++◌, map, Option, if◌then◌else◌, ltb, leb,
  ◌==◌, length,
}
use coin_listener.Prelude.Int.{ℤ, pos, ltb_ℤ}
use coin_listener.Prelude.Text.{Text, text_eq, codes, trim, to_lower}
use coin_listener.Core.Machine.{eq_ℤ, i32_max}
use coin_listener.Core.Error.{AppResult, ok, err, validation, ensure, ◌>>=◌, ◌>>◌}
use coin_listener.Core.Models.{Uuid}

pub record WatchedAddressImportChainConfig : Type 0 where
  pub chain_id : Uuid
  pub asset_ids : List Uuid

pub record WatchedAddressImportDefaults : Type 0 where
  pub chain_id : Uuid
  pub asset_ids : List Uuid
  pub chain_configs : List WatchedAddressImportChainConfig
  pub priority : Text
  pub scan_interval_seconds : ℤ
  pub transfer_filter_enabled : Bool
  pub balance_change_filter_enabled : Bool
  pub status : Text

pub record WatchedAddressImportRowRequest : Type 0 where
  pub row_number : ℤ
  pub raw_text : Text
  pub address : Text
  pub label : Option Text
  pub priority : Option Text
  pub scan_interval_seconds : Option ℤ
  pub transfer_filter_enabled : Option Bool
  pub balance_change_filter_enabled : Option Bool
  pub status : Option Text

pub record CreateWatchedAddressImportRequest : Type 0 where
  pub defaults : WatchedAddressImportDefaults
  pub rows : List WatchedAddressImportRowRequest

pub record ImportAttemptSeed : Type 0 where
  pub row_number : ℤ
  pub chain_id : Uuid
  pub asset_ids : List Uuid

pub record ImportCreatePlan : Type 0 where
  pub chain_id : Uuid
  pub asset_ids : List Uuid
  pub chain_configs : List WatchedAddressImportChainConfig
  pub total_rows : ℤ
  pub attempts : List ImportAttemptSeed

abbrev pub is_empty {ℓ} : {A : Type ℓ} → List A → Bool
is_empty [] = true
is_empty (x ∷ xs) = false

abbrev default_config : WatchedAddressImportDefaults → WatchedAddressImportChainConfig
default_config d = record { chain_id = d.chain_id; asset_ids = d.asset_ids }

unfoldable pub effective_import_chain_configs :
    WatchedAddressImportDefaults → List WatchedAddressImportChainConfig
effective_import_chain_configs defaults =
    if is_empty defaults.chain_configs then default_config defaults ∷ [] else defaults.chain_configs

-- `checked_mul` on a `usize` of 64 bits, and the conversion to `i32`.
abbrev pub usize_max : ℕ
usize_max = 18446744073709551615

unfoldable pub import_attempt_count : ℕ → ℕ → AppResult ℤ
import_attempt_count row_count chain_config_count =
    let value = row_count * chain_config_count in
    let exceeds = err (validation (codes "import attempt count exceeds i32 range")) in
    if ltb usize_max value then exceeds else if ltb i32_max value then exceeds else ok (pos value)

abbrev pub seed_of :
    WatchedAddressImportRowRequest → WatchedAddressImportChainConfig → ImportAttemptSeed
seed_of row config = record {
  row_number = row.row_number;
  chain_id = config.chain_id;
  asset_ids = config.asset_ids;
}

-- The two loops.
unfoldable pub attempts_of :
    List WatchedAddressImportChainConfig
    → List WatchedAddressImportRowRequest
    → List ImportAttemptSeed
attempts_of configs [] = []
attempts_of configs (row ∷ rows) = map (seed_of row) configs ++ attempts_of configs rows

unfoldable pub planned :
    CreateWatchedAddressImportRequest
    → List WatchedAddressImportChainConfig
    → AppResult ImportCreatePlan
planned request [] = err (validation (codes "chain_configs are required"))
planned request (first ∷ others) = do
  total ← import_attempt_count (length request.rows) (length (first ∷ others))
  ok (record {
    chain_id = first.chain_id;
    asset_ids = first.asset_ids;
    chain_configs = first ∷ others;
    total_rows = total;
    attempts = attempts_of (first ∷ others) request.rows;
  })

unfoldable pub import_create_plan : CreateWatchedAddressImportRequest → AppResult ImportCreatePlan
import_create_plan request = planned request (effective_import_chain_configs request.defaults)

-- `HashSet::insert` answers false on a value that is there.
abbrev pub has_assets : WatchedAddressImportChainConfig → AppResult (Unit {0})
has_assets config =
    ensure (not (is_empty config.asset_ids))
      (validation (codes "asset_ids are required for every chain config"))

abbrev pub is_chain : Uuid → Uuid → Bool
is_chain id chain_id = chain_id == id

abbrev pub is_new_chain : List Uuid → Uuid → AppResult (Unit {0})
is_new_chain seen chain_id =
    ensure (not (any (is_chain chain_id) seen))
      (validation (codes "chain_id must be unique within an import"))

unfoldable pub check_configs :
    List Uuid → List WatchedAddressImportChainConfig → AppResult (Unit {0})
check_configs seen [] = ok tt
check_configs seen (config ∷ configs) =
    has_assets config
    >> (is_new_chain seen config.chain_id >> check_configs (config.chain_id ∷ seen) configs)

abbrev pub normalized_address : WatchedAddressImportRowRequest → Text
normalized_address row = to_lower (trim row.address)

abbrev pub is_numbered : WatchedAddressImportRowRequest → AppResult (Unit {0})
is_numbered row =
    ensure (ltb_ℤ (pos 0) row.row_number) (validation (codes "row_number must be positive"))
    >> ensure (not (is_empty (trim row.address))) (validation (codes "address is required"))

abbrev pub is_number : ℤ → ℤ → Bool
is_number n row_number = eq_ℤ row_number n

abbrev pub is_new_number : List ℤ → ℤ → AppResult (Unit {0})
is_new_number numbers row_number =
    ensure (not (any (is_number row_number) numbers))
      (validation (codes "row_number must be unique"))

abbrev pub is_new_address : List Text → Text → AppResult (Unit {0})
is_new_address addresses address =
    ensure (not (any (λ a. text_eq a address) addresses))
      (validation (codes "addresses must be unique within an import"))

unfoldable pub check_rows :
    List ℤ → List Text → List WatchedAddressImportRowRequest → AppResult (Unit {0})
check_rows numbers addresses [] = ok tt
check_rows numbers addresses (row ∷ rows) =
    is_numbered row
    >> (is_new_number numbers row.row_number
        >> (is_new_address addresses (normalized_address row)
            >> check_rows (row.row_number ∷ numbers) (normalized_address row ∷ addresses) rows))

unfoldable pub validate_import_create_request :
    CreateWatchedAddressImportRequest → AppResult (Unit {0})
validate_import_create_request request =
    let configs = effective_import_chain_configs request.defaults in
    ensure (not (is_empty request.rows)) (validation (codes "import rows are required"))
    >> (ensure (not (is_empty configs)) (validation (codes "chain_configs are required"))
        >> (check_configs [] configs
            >> ((import_attempt_count (length request.rows) (length configs) >>= λ n. ok tt)
                >> check_rows [] [] request.rows)))
