-- ===== src/Tests/Imports.antt =====
-- The plan of an import of two rows on two chains.
use coin_listener.Prelude.{◌≡◌, refl, true, [], ◌∷◌, none, ℕ}
use coin_listener.Prelude.Int.{pos}
use coin_listener.Prelude.Text.{Text, codes, text_eq, trim, to_lower}
use coin_listener.Core.Error.{ok}
use coin_listener.Storage.Imports.{
  WatchedAddressImportChainConfig, WatchedAddressImportRowRequest,
  CreateWatchedAddressImportRequest, ImportCreatePlan, validate_import_create_request,
  import_create_plan, check_configs, check_rows, effective_import_chain_configs,
  import_attempt_count,
}
use coin_listener.Storage.Imports.Plan.{IsPlan, import_create_plan-IsPlan}

abbrev config : ℕ → WatchedAddressImportChainConfig
config chain = record { chain_id = chain; asset_ids = 5 ∷ [] }

abbrev row : ℕ → Text → WatchedAddressImportRowRequest
row n text = record {
  row_number = pos n;
  raw_text = text;
  address = text;
  label = none;
  priority = none;
  scan_interval_seconds = none;
  transfer_filter_enabled = none;
  balance_change_filter_enabled = none;
  status = none;
}

abbrev request : CreateWatchedAddressImportRequest
request = record {
  defaults = record {
    chain_id = 2;
    asset_ids = 5 ∷ [];
    chain_configs = config 2 ∷ config 3 ∷ [];
    priority = codes "normal";
    scan_interval_seconds = pos 60;
    transfer_filter_enabled = true;
    balance_change_filter_enabled = true;
    status = codes "active";
  };
  rows = row 1 (codes " 0xAb") ∷ row 2 (codes "0xcd") ∷ [];
}

request_valid : validate_import_create_request request ≡ ok tt
unfolding validate_import_create_request check_configs check_rows effective_import_chain_configs
    import_attempt_count text_eq trim to_lower
request_valid = refl

import_create_plan-IsPlan_example :
    (p : ImportCreatePlan) × (import_create_plan request ≡ ok p) × IsPlan request p
import_create_plan-IsPlan_example = import_create_plan-IsPlan request request_valid
