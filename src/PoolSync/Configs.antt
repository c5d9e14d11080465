-- ===== src/PoolSync/Configs.antt =====
-- Which entries of the history the configurations of a pool are built from,
-- `buildPoolConfigurations` of internal/controller/poolsync_controller.go.
use dynamic_prefix_operator.Prelude.{
  ℕ, zero, suc, ◌≤◌, ◌≡◌, refl, ap, arith, length, List, [], ◌∷◌, ◌++◌, Option, some, none, Result,
  ok, ◌>>=◌,
}
use dynamic_prefix_operator.Ownership.Texts.{Text}
use dynamic_prefix_operator.Ownership.{Netip}
use dynamic_prefix_operator.History.{PrefixHistoryEntry, max_history}
use dynamic_prefix_operator.Resource.{
  DynamicPrefix, find_address_range_spec, find_subnet_spec, over_history,
}
use dynamic_prefix_operator.PoolSync.{
  PoolConfiguration, PoolError, build_mode_configs, current_config, historical_configs,
  build_raw_prefix_configs, if_ok, cidr_configuration, find_address_range_in_status,
  find_subnet_in_status, calculate_address_range_config, calculate_subnet_config,
  build_pool_configurations,
}

-- A resource whose history is as given.
abbrev pub with_history : DynamicPrefix → List PrefixHistoryEntry → DynamicPrefix
with_history dp es = record dp { history = es }

over_history-append {ℓ} :
    {A : Type ℓ} (f : Text → Option A) (most : ℕ) (es later : List PrefixHistoryEntry)
    → most ≤ length es
    → over_history f most (es ++ later) ≡ over_history f most es
over_history-append f zero es later h = refl
over_history-append f (suc most) [] later h = absurd (omega arith)
over_history-append f (suc most) (e ∷ es) later h =
    rw (over_history-append f most es later (omega arith)) refl

mode-append :
    {S : Type 0} (dp : DynamicPrefix) (es later : List PrefixHistoryEntry) (name : Text) (most : ℕ)
    (spec : Option S) (status : Option PoolConfiguration)
    (calculate : Text → S → Result PoolError PoolConfiguration)
    → most ≤ length es
    → build_mode_configs (with_history dp (es ++ later)) name most spec status calculate
      ≡ build_mode_configs (with_history dp es) name most spec status calculate
unfolding build_mode_configs historical_configs
mode-append dp es later name most none status calculate h = refl
mode-append dp es later name most (some s) status calculate h =
    ap
      (λ (xs : List PoolConfiguration).
        current_config name dp.current_prefix calculate (some s) status >>= (λ c. ok (c ∷ xs)))
      (over_history-append (λ prefix. if_ok (calculate prefix s)) most es later h)

-- In every mode: once the history has as many entries as may be used, the configurations do not depend
-- on the entries after those, although the newest entries stand last.
pub build_pool_configurations-append :
    (lib : Netip) (dp : DynamicPrefix) (es later : List PrefixHistoryEntry)
    (range_name subnet_name : Text)
    → max_history dp.transition ≤ length es
    → build_pool_configurations lib (with_history dp (es ++ later)) range_name subnet_name
      ≡ build_pool_configurations lib (with_history dp es) range_name subnet_name
unfolding build_pool_configurations build_raw_prefix_configs
build_pool_configurations-append lib dp es later range_name subnet_name h =
    let most = max_history dp.transition in
    rw
      (
        mode-append dp es later range_name most
            (find_address_range_spec range_name dp.address_ranges)
            (find_address_range_in_status range_name dp.status_ranges)
            (calculate_address_range_config lib) h,
        mode-append dp es later subnet_name most (find_subnet_spec subnet_name dp.subnets)
            (find_subnet_in_status subnet_name dp.status_subnets) (calculate_subnet_config lib) h,
        over_history-append (λ prefix. some (cidr_configuration prefix)) most es later h,
      )
      refl
