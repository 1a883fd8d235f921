-- ===== src/Ingestion/Config.antt =====
-- cmd/ingestion/config.go and registry.go, and environAsMap and run of main.go: from the environment
-- to the source that is imported. `quote` is fmt's %q.
pub mod Loads
mod Tests
use Prim.Native.Char.{code}
use Prim.Native.String
use inwheel_api.Common.{
  ℕ, String, ◌==◌, Bool, true, false, Option, none, some, List, [], ◌∷◌, ◌++◌, eqb, if◌then◌else◌,
}
use inwheel_api.Common.Int.{ℤ, pos}
use inwheel_api.Common.Dict.{Dict, insert, lookup, get}
use inwheel_api.Common.Text.{trim_space, atoi}
use inwheel_api.Common.Result.{Error, message, wrap, Result, ok, err}

abbrev pub default_db_port : ℤ
default_db_port = pos 5432

pub record Config : Type 0 where
  pub db_host : String
  pub db_port : ℤ
  pub db_user : String
  pub db_password : String
  pub db_name : String
  pub db_ssl_mode : String
  pub osm_pbf_path : String

-- kv[:i] and kv[i+1:], at the first `=`
unfoldable pub split_equals : String → Option (String × String)
split_equals String.[] = none
split_equals (String.◌∷◌ c s) =
    let rest = split_equals s in
    if eqb (code c) b'='
    then some ("", s)
    else elim rest [ none ↦ none | some kv ↦ some (String.◌∷◌ c kv.0, kv.1) ]

-- environAsMap, on os.Environ()
unfoldable pub environ_from : Dict String → List String → Dict String
unfolding split_equals
environ_from out [] = out
environ_from out (kv ∷ kvs) = elim (split_equals kv) [
  | some (key, value) ↦ environ_from (insert key value out) kvs
  | none ↦ environ_from out kvs
]

abbrev pub environ_as_map : List String → Dict String
environ_as_map = environ_from []

abbrev or_fallback : Option String → String → String
or_fallback none fallback = fallback
or_fallback (some v) fallback = if v == "" then fallback else v

unfoldable pub value_or : Dict String → String → String → String
value_or env key fallback = or_fallback (lookup key env) fallback

unfoldable pub osm_errors : Dict String → List String
osm_errors env =
    if trim_space (get env "OSM_PBF_PATH") == ""
    then "OSM_PBF_PATH is required but was not set" ∷ []
    else []

-- the port, and the errors on the way to it
port_or_error : (String → String) → Option String → ℤ × List String
port_or_error quote none = (default_db_port, [])
port_or_error quote (some raw) = if raw == "" then (default_db_port, []) else elim (atoi raw) [
  | none ↦ (default_db_port, String.◌++◌ "DB_PORT must be an integer, got: " (quote raw) ∷ [])
  | some parsed ↦ (parsed, [])
]

-- strings.Join(errs, "\n  - ")
join_errors : List String → String
join_errors [] = ""
join_errors (e ∷ []) = e
join_errors (e ∷ f ∷ es) = String.◌++◌ e (String.◌++◌ "\n  - " (join_errors (f ∷ es)))

config_of : Dict String → ℤ → Config
config_of env port = record {
  db_host = value_or env "DB_HOST" "localhost";
  db_port = port;
  db_user = value_or env "DB_USER" "postgres";
  db_password = value_or env "DB_PASSWORD" "postgres";
  db_name = value_or env "DB_NAME" "inwheel";
  db_ssl_mode = value_or env "DB_SSLMODE" "disable";
  osm_pbf_path = get env "OSM_PBF_PATH";
}

loaded_config : Dict String → ℤ → List String → Result Config
unfolding config_of join_errors
loaded_config env port [] = ok (config_of env port)
loaded_config env port (e ∷ es) =
    err (message (String.◌++◌ "invalid configuration:\n  - " (join_errors (e ∷ es))))

unfoldable pub load_config : (String → String) → Dict String → Result Config
unfolding loaded_config port_or_error
load_config quote env =
    let (port, errs) = port_or_error quote (lookup "DB_PORT" env) in
    loaded_config env port (osm_errors env ++ errs)

-- &osm.Source{PBFPath: ...}
pub data BuiltSource : Type 0 where
  osm : String → BuiltSource

unfoldable pub build_source : (String → String) → String → Config → Result BuiltSource
build_source quote name cfg =
    if name == "osm"
    then (if cfg.osm_pbf_path == ""
        then err
            (message (String.◌++◌ "source " (String.◌++◌ (quote name) " requires OSM_PBF_PATH")))
        else ok (osm cfg.osm_pbf_path))
    else err (message (String.◌++◌ "unknown source: " (quote name)))
