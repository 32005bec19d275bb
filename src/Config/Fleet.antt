-- ===== src/Config/Fleet.antt =====
-- config.py: the providers that a file declares.
use compute_connect.Prelude.{String, List, [], ◌∷◌, ◌++◌, map, ◌≡◌, ◌≢◌, false, ◌⊎◌, if◌then◌else◌}
use compute_connect.Json.{Fields, truthy, fields_get}
use compute_connect.Provider.{ProviderSpec}
use compute_connect.Config.{keys}
use compute_connect.Config.Load.{Arguments}

abbrev pub ids : List ProviderSpec → List String
ids = map (λ (p : ProviderSpec). p.id)

-- the providers that a file asks for, by their ids
abbrev asked_for : Fields → Fields → List String
asked_for raw entries =
    keys entries ++ (if truthy (fields_get raw "include_sim_cloud") then "sim-cloud" ∷ [] else [])

-- the fleet without a provider of the file
abbrev pub default_ids : Arguments → List String
default_ids a = "local-llamacpp" ∷ (if a.include_sim_cloud then "sim-cloud" ∷ [] else [])

abbrev fleet_ids : Arguments → List String → List String
fleet_ids a [] = default_ids a
fleet_ids a (p ∷ ps) = p ∷ ps

-- the documented fleet, for the ids that the file declares: those and the simulated cloud where the
-- file asks for it, or the default fleet where it declares none
abbrev pub documented_ids : Fields → Arguments → List String → List String
documented_ids raw a [] = default_ids a
documented_ids raw a (p ∷ ps) =
    (p ∷ ps) ++ (if truthy (fields_get raw "include_sim_cloud") then "sim-cloud" ∷ [] else [])

-- the file declares a provider, or does not ask for the simulated cloud
abbrev pub IsUnmixed : Fields → List String → Type 0
IsUnmixed raw ps = (ps ≢ []) ⊎ (truthy (fields_get raw "include_sim_cloud") ≡ false)
