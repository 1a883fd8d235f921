-- ===== src/Ingestion/Config/Tests.antt =====
-- An environment that loads, and one that does not.
use inwheel_api.Common.{String, [], ◌∷◌}
use inwheel_api.Common.Dict.{Dict}
use inwheel_api.Ingestion.Config.{load_config}
use inwheel_api.Ingestion.Config.Loads.{IsLoaded, load_config-IsLoaded}

abbrev env : Dict String
env = ("OSM_PBF_PATH", "/tmp/a.pbf") ∷ ("DB_PORT", "6543") ∷ []

load_config-IsLoaded_example : IsLoaded (λ s. s) env (load_config (λ s. s) env)
load_config-IsLoaded_example = load_config-IsLoaded (λ s. s) env
