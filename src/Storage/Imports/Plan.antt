-- ===== src/Storage/Imports/Plan.antt =====
-- An import that is accepted has a plan with one attempt for each of its rows on each of its chains.
use coin_listener.Prelude.{
  ℕ, ◌+◌, ◌*◌, ◌≤◌, ◌≡◌, refl, Bool, true, false, ◌&&◌, not, any, List, [], ◌∷◌, map, arith, ◌==◌,
  length, length-append, IsIn, ap, Bool-cases, inl, inr, if◌then◌else◌, ltb, sym, ◌∙◌, ltb,
}
use mathlib.Core.Bool.{false≢true}
use native.Mathlib.Nat.{suc-mul}
use coin_listener.Prelude.Int.{ℤ, pos, negsuc}
use coin_listener.Core.Machine.{eq_ℤ, i32_max}
use coin_listener.Core.Error.{ok, err-ne-ok, >>-eq-ok, >>=-eq-ok, ensure-eq-ok, eq_of_ok, ensure}
use coin_listener.Prelude.Text.{Text}
use coin_listener.Core.Error.{◌>>=◌}
use coin_listener.Core.Models.{Uuid}
use coin_listener.Storage.Sql.{rows_affected}
use coin_listener.Storage.Sql.Count.{rows_affected-append, rows_affected-IsIn}
use coin_listener.Storage.Imports.{
  WatchedAddressImportChainConfig, WatchedAddressImportRowRequest,
  CreateWatchedAddressImportRequest, ImportAttemptSeed, ImportCreatePlan, attempts_of, seed_of,
  check_configs, has_assets, is_chain, is_new_chain, is_number, is_new_number, is_new_address,
  is_numbered, normalized_address, check_rows, planned, import_create_plan,
  validate_import_create_request, effective_import_chain_configs, import_attempt_count, usize_max,
  is_empty,
}

abbrev pub is_config : Uuid → WatchedAddressImportChainConfig → Bool
is_config id config = is_chain id config.chain_id

abbrev pub is_row : ℤ → WatchedAddressImportRowRequest → Bool
is_row n row = is_number n row.row_number

abbrev pub is_attempt : ℤ → Uuid → ImportAttemptSeed → Bool
is_attempt n id a = eq_ℤ a.row_number n && a.chain_id == id

-- What the two loops of the validation see to: no value of the set is taken again.
unseen_chain :
    (id c : Uuid) (seen : List Uuid)
    → is_new_chain seen c ≡ ok tt
    → is_chain id c ≡ true
    → any (is_chain id) seen ≡ false
unseen_chain id c seen h same =
    let e : c ≡ id = ground arith in
    let new = ensure-eq-ok (not (any (is_chain c) seen)) _ h in rw (← e) (ground (arith, new))

check_configs_unique :
    (id : Uuid) (seen : List Uuid) (configs : List WatchedAddressImportChainConfig)
    → check_configs seen configs ≡ ok tt
    → rows_affected (is_config id) configs + (if any (is_chain id) seen then 1 else 0) ≤ 1
unfolding check_configs rows_affected
check_configs_unique id seen [] h = ground arith
check_configs_unique id seen (config ∷ configs) h =
    let (nonempty, h') = >>-eq-ok (has_assets config) _ h in
    let (fresh, rest) = >>-eq-ok (is_new_chain seen config.chain_id) _ h' in
    ground (
      arith,
      check_configs_unique id (config.chain_id ∷ seen) configs rest,
      unseen_chain id config.chain_id seen fresh,
    )

eq_of_is_number : (a b : ℤ) → is_number a b ≡ true → b ≡ a
eq_of_is_number (pos m) (pos n) h = let e : n ≡ m = ground arith in ap pos e
eq_of_is_number (pos m) (negsuc n) h = absurd (ground arith)
eq_of_is_number (negsuc m) (pos n) h = absurd (ground arith)
eq_of_is_number (negsuc m) (negsuc n) h = let e : n ≡ m = ground arith in ap negsuc e

unseen_number :
    (n r : ℤ) (seen : List ℤ)
    → is_new_number seen r ≡ ok tt
    → is_number n r ≡ true
    → any (is_number n) seen ≡ false
unseen_number n r seen h same =
    let e = eq_of_is_number n r same in
    let new = ensure-eq-ok (not (any (is_number r) seen)) _ h in rw (← e) (ground (arith, new))

check_rows_unique :
    (n : ℤ) (seen : List ℤ) (addresses : List Text) (rows : List WatchedAddressImportRowRequest)
    → check_rows seen addresses rows ≡ ok tt
    → rows_affected (is_row n) rows + (if any (is_number n) seen then 1 else 0) ≤ 1
unfolding check_rows rows_affected
check_rows_unique n seen addresses [] h = ground arith
check_rows_unique n seen addresses (row ∷ rows) h =
    let (numbered, h') = >>-eq-ok (is_numbered row) _ h in
    let (fresh, h'') = >>-eq-ok (is_new_number seen row.row_number) _ h' in
    let (new, rest) = >>-eq-ok (is_new_address addresses (normalized_address row)) _ h'' in
    ground (
      arith,
      check_rows_unique n (row.row_number ∷ seen) (normalized_address row ∷ addresses) rows rest,
      unseen_number n row.row_number seen fresh,
    )

count_of_row :
    (n : ℤ) (id : Uuid) (row : WatchedAddressImportRowRequest)
    (configs : List WatchedAddressImportChainConfig)
    → rows_affected (is_attempt n id) (map (seed_of row) configs)
      ≡ (if is_row n row then rows_affected (is_config id) configs else 0)
unfolding rows_affected
count_of_row n id row [] = ground arith
count_of_row n id row (config ∷ configs) = ground (arith, count_of_row n id row configs)

-- The attempts of a row number on a chain, when the chain is configured once.
count_of_attempts :
    (n : ℤ) (id : Uuid) (configs : List WatchedAddressImportChainConfig)
    (rows : List WatchedAddressImportRowRequest)
    → rows_affected (is_config id) configs ≡ 1
    → rows_affected (is_attempt n id) (attempts_of configs rows) ≡ rows_affected (is_row n) rows
unfolding attempts_of rows_affected
count_of_attempts n id configs [] one = refl
count_of_attempts n id configs (row ∷ rows) one =
    let split =
      rows_affected-append (is_attempt n id) (map (seed_of row) configs)
        (attempts_of configs rows) in
    ground
      (arith, split, count_of_row n id row configs, count_of_attempts n id configs rows one, one)

length-map_seed :
    (row : WatchedAddressImportRowRequest) (configs : List WatchedAddressImportChainConfig)
    → length (map (seed_of row) configs) ≡ length configs
length-map_seed row [] = refl
length-map_seed row (config ∷ configs) = omega (arith, length-map_seed row configs)

length-attempts_of :
    (configs : List WatchedAddressImportChainConfig) (rows : List WatchedAddressImportRowRequest)
    → length (attempts_of configs rows) ≡ length rows * length configs
unfolding attempts_of
length-attempts_of configs [] = omega arith
length-attempts_of configs (row ∷ rows) =
    let split = length-append (map (seed_of row) configs) (attempts_of configs rows) in
    omega (
      arith,
      suc-mul (length rows) (length configs),
      split,
      length-map_seed row configs,
      length-attempts_of configs rows,
    )

-- The plan `p` of a request: as many attempts as it says, one for each row number and chain.
pub record IsPlan (request : CreateWatchedAddressImportRequest) (p : ImportCreatePlan)
    : Type 0 where
  pub configs : p.chain_configs ≡ effective_import_chain_configs request.defaults
  pub total : p.total_rows ≡ pos (length p.attempts)
  pub bounded : length p.attempts ≤ i32_max
  pub once :
      (row : WatchedAddressImportRowRequest)
      → IsIn row request.rows
      → (config : WatchedAddressImportChainConfig) → IsIn config p.chain_configs
      → rows_affected (is_attempt row.row_number config.chain_id) p.attempts ≡ 1
  pub product : length p.attempts ≡ length request.rows * length p.chain_configs

counted :
    (rows configs : ℕ) (total : ℤ)
    → import_attempt_count rows configs ≡ ok total
    → (total ≡ pos (rows * configs)) × (rows * configs ≤ i32_max)
unfolding import_attempt_count
counted rows configs total h = elim (Bool-cases (ltb usize_max (rows * configs))) [
  | inl over ↦ absurd (err-ne-ok (rw over at h))
  | inr fits ↦ elim (Bool-cases (ltb i32_max (rows * configs))) [
    | inl over ↦ absurd (err-ne-ok (rw (fits, over) at h))
    | inr small ↦ (sym (eq_of_ok (rw (fits, small) at h)), ground arith)
  ]
]

module _ (request : CreateWatchedAddressImportRequest) where
  planned-IsPlan :
      (configs : List WatchedAddressImportChainConfig)
      → configs ≡ effective_import_chain_configs request.defaults
      → not (is_empty configs) ≡ true
      → check_configs [] configs ≡ ok tt
      → (total : ℤ) → import_attempt_count (length request.rows) (length configs) ≡ ok total
      → check_rows [] [] request.rows ≡ ok tt
      → (p : ImportCreatePlan) × (planned request configs ≡ ok p) × IsPlan request p
  unfolding planned
  planned-IsPlan [] e some_config unique total count rows = absurd (false≢true some_config)
  planned-IsPlan (first ∷ others) e some_config unique total count rows =
      let configs = first ∷ others in
      let (sum, small) = counted (length request.rows) (length configs) total count in
      let size = length-attempts_of configs request.rows in
      rw count (
        _,
        refl,
        record {
          configs = e;
          total = sum ∙ ap pos (sym size);
          bounded = omega (arith, size, small);
          once = λ row m config k.
              let one : rows_affected (is_config config.chain_id) configs ≡ 1 = ground (
                arith,
                check_configs_unique config.chain_id [] configs unique,
                rows_affected-IsIn (is_config config.chain_id) k (ground arith),
              ) in
              let row_once : rows_affected (is_row row.row_number) request.rows ≡ 1 = ground (
                arith,
                check_rows_unique row.row_number [] [] request.rows rows,
                rows_affected-IsIn (is_row row.row_number) m (ground arith),
              ) in
              count_of_attempts row.row_number config.chain_id configs request.rows one ∙ row_once;
          product = size;
        },
      )

  -- A request that the validation accepts has a plan: the plan has the request's chains, or its one
  -- default chain; its attempts are as many as its total says, at most 2147483647, the number of the
  -- rows times that of the chains; and each row has exactly one attempt on each chain.
  pub import_create_plan-IsPlan :
      validate_import_create_request request ≡ ok tt
      → (p : ImportCreatePlan) × (import_create_plan request ≡ ok p) × IsPlan request p
  unfolding validate_import_create_request import_create_plan
  import_create_plan-IsPlan h =
      let configs = effective_import_chain_configs request.defaults in
      let (some_row, h1) = >>-eq-ok (ensure (not (is_empty request.rows)) _) _ h in
      let (some_config, h2) = >>-eq-ok (ensure (not (is_empty configs)) _) _ h1 in
      let (unique, h3) = >>-eq-ok (check_configs [] configs) _ h2 in
      let (count, rows) =
        >>-eq-ok (import_attempt_count (length request.rows) (length configs) >>= λ n. ok tt) _
          h3 in
      let (total, counts, done) =
        >>=-eq-ok (import_attempt_count (length request.rows) (length configs)) _ count in
      planned-IsPlan configs refl (ensure-eq-ok (not (is_empty configs)) _ some_config) unique total
        counts rows
