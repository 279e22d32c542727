-- ===== src/Worker/Paging.antt =====
-- The pages of a provider: the paging helpers of backend/crates/worker/src/lib.rs.
use coin_listener.Prelude.{
  ℕ, ◌+◌, ◌*◌, Bool, false, ◌&&◌, ◌||◌, ◌++◌, Option, none, some, if◌then◌else◌, ltb, leb, not,
}
use coin_listener.Prelude.Text.{Text, codes, contains, starts_with, text_eq}
use coin_listener.Prelude.Decimal.{show_ℕ}
use coin_listener.Core.Error.{AppError, AppResult, ok, err, validation, config}
use coin_listener.Core.Machine.{i32_max}
use coin_listener.Core.Models.{BalanceSnapshot}

-- `usize` has 64 bits; PROVIDER_PAGE_LOG_INDEX_STRIDE, MAX_PROVIDER_PAGES_PER_SCAN
abbrev pub usize_max : ℕ
usize_max = 18446744073709551615

abbrev pub provider_page_log_index_stride : ℕ
provider_page_log_index_stride = 10000

abbrev pub max_provider_pages_per_scan : ℕ
max_provider_pages_per_scan = 10

unfoldable pub paged_log_index : ℕ → ℕ → AppResult ℕ
paged_log_index page_index item_index =
    let base = page_index * provider_page_log_index_stride in
    let value = base + item_index in
    if ltb usize_max base
    then err (validation (codes "provider page item index overflow"))
    else if ltb usize_max value
    then err (validation (codes "provider page item index overflow"))
    else if ltb i32_max value
    then err (validation (codes "provider page item index overflow"))
    else ok value

unfoldable pub ensure_provider_page_limit : Text → ℕ → Bool → AppResult (Unit {0})
ensure_provider_page_limit label pages_processed has_next_page =
    if has_next_page && leb max_provider_pages_per_scan pages_processed
    then err (
        config (
          label
          ++ codes " pagination exceeded max page limit "
          ++ show_ℕ max_provider_pages_per_scan))
    else ok tt

unfoldable pub is_provider_availability_error : AppError → Bool
is_provider_availability_error (config message) =
    contains (codes "request failed") message
    || contains (codes "response body failed") message
    || contains (codes "returned http") message
    || starts_with (codes "no active rpc provider capacity for chain ") message
is_provider_availability_error _ = false

unfoldable pub should_emit_balance_change : Option BalanceSnapshot → BalanceSnapshot → Bool
should_emit_balance_change none current = false
should_emit_balance_change (some previous) current =
    not (text_eq previous.balance_raw current.balance_raw)
