-- ===== src/Partitions/TestsLogs.antt =====
-- A call for the logs of five blocks with one signature.
use triodion.Prelude.{refl, some, replicate}
use triodion.Partitions.Types.{Params, no_params}
use triodion.Partitions.LogMatches.{accepted, Selects, ethers_log_filter-Selects}

abbrev transfers : Params
transfers = record no_params { block_range = some (5, 9); topic0 = some (replicate 32 221) }

ethers_log_filter-Selects_example : Selects accepted (λ f log. refl) (5, 9) transfers
ethers_log_filter-Selects_example =
    ethers_log_filter-Selects accepted (λ f log. refl) transfers (5, 9) refl
