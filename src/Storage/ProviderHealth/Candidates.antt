-- ===== src/Storage/ProviderHealth/Candidates.antt =====
-- Which providers a scan may ask: the candidates query, on the rows that a history of answers left.
use coin_listener.Prelude.{
  ◌≡◌, ◌↔◌, refl, Bool, true, ◌&&◌, List, [], ◌∷◌, Option, none, some, filter, map, arith, IsIn,
  sym, ap,
}
use coin_listener.Prelude.{◌+◌, ◌*◌, ◌<◌, ◌≤◌, ◌⊎◌, leb, inl, inr, Bool-cases}
use coin_listener.Prelude.Text.{Text, codes, text_eq_iff}
use coin_listener.Core.Clock.{Time}
use coin_listener.Core.Models.{Uuid, Provider}
use coin_listener.Storage.Sql.Order.{order_by, order_by-IsIn, IsIn-filter}
use coin_listener.Storage.ProviderHealth.{
  ProviderHealthRow, ProviderCandidate, active_rpc_provider_candidates, candidate_of, comes_before,
  is_candidate, is_active_rpc, is_enabled, health_of, is_enabled_time,
}
use coin_listener.Storage.ProviderHealth.Circuit.{
  Answer, health_after, health_after-streak, closed_from, disabled_of, streak, last_answer_at,
}

-- What the WHERE clause says of the circuit.
is_enabled-closed_from :
    (now : Time) (row : Option ProviderHealthRow) (closed : Option Time)
    → disabled_of row ≡ closed
    → is_enabled now row ≡ is_enabled_time closed now
unfolding is_enabled
is_enabled-closed_from now none closed e = rw (sym e) refl
is_enabled-closed_from now (some h) closed e = rw (sym e) refl

-- An RPC provider of the chain that is active.
abbrev pub IsActiveRpc : Uuid → Provider → Type 0
IsActiveRpc chain_id p =
    (p.chain_id ≡ chain_id) × (p.provider_type ≡ codes "rpc") × (p.status ≡ codes "active")

-- The circuit is not open: fewer than three failures since the last success, or 300 seconds have
-- gone by since the provider's latest answer.
abbrev pub IsClosed : Uuid → List Answer → Time → Type 0
IsClosed provider_id history now =
    (streak provider_id history < 3) ⊎ (last_answer_at provider_id history + 300 * 1_000_000 ≤ now)

is_active_rpc_iff :
    (chain_id : Uuid) (p : Provider) → (is_active_rpc chain_id p ≡ true) ↔ IsActiveRpc chain_id p
is_active_rpc_iff chain_id p =
    let rpc = text_eq_iff p.provider_type (codes "rpc") in
    let active = text_eq_iff p.status (codes "active") in
    (
      λ h. (ground arith, rpc.0 (ground arith), active.0 (ground arith)),
      λ (c, r, a). let r' = rpc.1 r in let a' = active.1 a in ground arith,
    )

IsClosed-iff :
    (provider_id : Uuid) (history : List Answer) (now : Time)
    → (is_enabled_time (closed_from provider_id history) now ≡ true)
      ↔ IsClosed provider_id history now
unfolding closed_from
IsClosed-iff provider_id history now = elim (Bool-cases (leb 3 (streak provider_id history))) [
  | inl three ↦
      rw three
        (λ h. inr (ground arith), λ h. elim h [ inl few ↦ ground arith | inr late ↦ ground arith ])
  | inr few ↦ rw few (λ h. inl (ground arith), λ h. refl)
]

providers_of_candidates :
    (rows : List ProviderHealthRow) (ps : List Provider)
    → map (λ (c : ProviderCandidate). c.provider) (map (candidate_of rows) ps) ≡ ps
providers_of_candidates rows [] = refl
providers_of_candidates rows (p ∷ ps) = ap (λ l. p ∷ l) (providers_of_candidates rows ps)

-- After any history of answers, the candidates of a chain are exactly its providers of type `rpc` and
-- status `active` whose circuit is not open: fewer than three failures since the last success, or 300
-- seconds since the latest of them.
pub active_rpc_provider_candidates-IsIn :
    (name_before : Text → Text → Bool) (providers : List Provider) (history : List Answer)
    (chain_id : Uuid) (now : Time) (p : Provider)
    → IsIn p (
        map
          (λ (c : ProviderCandidate). c.provider)
          (active_rpc_provider_candidates name_before providers
            (health_after history)
            chain_id
            now))
      ↔ (IsIn p providers × IsActiveRpc chain_id p × IsClosed p.id history now)
unfolding active_rpc_provider_candidates is_candidate
active_rpc_provider_candidates-IsIn name_before providers history chain_id now p =
    rw (providers_of_candidates rows (order_by before taken)) (
      λ m.
          let (n, t) = (IsIn-filter test).0 ((order_by-IsIn before taken).0 m) in
          let (active, on) = both.0 t in
          (n, (is_active_rpc_iff chain_id p).0 active, (IsClosed-iff p.id history now).0 on),
      λ (n, active, on). (order_by-IsIn before taken).1 (
          (IsIn-filter test).1 (
            n,
            both.1 ((is_active_rpc_iff chain_id p).1 active, (IsClosed-iff p.id history now).1 on),
          )),
    )
  where
    before : Provider → Provider → Bool
    before = comes_before name_before

    rows : List ProviderHealthRow
    rows = health_after history

    test : Provider → Bool
    test = is_candidate rows chain_id now

    taken : List Provider
    taken = filter test providers

    enabled : is_enabled now (health_of p.id rows) ≡ is_enabled_time (closed_from p.id history) now
    enabled =
        is_enabled-closed_from now (health_of p.id rows) (closed_from p.id history)
          (health_after-streak p.id history).1

    conjunction : (a b c : Bool) → b ≡ c → ((a && b) ≡ true) ↔ ((a ≡ true) × (c ≡ true))
    conjunction a b c e = ground arith

    both : (test p ≡ true) ↔ (
        (is_active_rpc chain_id p ≡ true) × (is_enabled_time (closed_from p.id history) now ≡ true))
    both =
        conjunction (is_active_rpc chain_id p) (is_enabled now (health_of p.id rows))
          (is_enabled_time (closed_from p.id history) now) enabled
