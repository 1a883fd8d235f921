-- ===== src/Ingestion/Config/Loads.antt =====
-- Which environments load, and what they load.
use Prim.Native.Char.{code}
use Prim.Native.String
use Prim.Native.String.append
use inwheel_api.Common.{
  String, ◌==◌, eq_iff, ◌≡◌, refl, ap, ◌∙◌, ◌⊎◌, inl, inr, true, false, Option, none, some, List,
  [], ◌∷◌, map, All, eqb, if◌then◌else◌, Bool-cases, Option-cases,
}
use inwheel_api.Common.Int.{ℤ}
use inwheel_api.Common.Dict.{Dict, insert, lookup, lookup-insert, get}
use inwheel_api.Common.Text.{trim_space, trim_left, trim_right, atoi}
use inwheel_api.Common.Result.{message, Result, ok, err}
use inwheel_api.Ingestion.Config.{
  default_db_port, Config, split_equals, environ_from, environ_as_map, osm_errors, port_or_error,
  loaded_config, config_of, load_config, osm, build_source,
}

-- What an environment says of the port.
pub data IsPort (env : Dict String) : ℤ → Type 0 where
  unset : lookup "DB_PORT" env ≡ none → IsPort env default_db_port
  blank : lookup "DB_PORT" env ≡ some "" → IsPort env default_db_port
  number :
      (raw : String) (port : ℤ)
      → lookup "DB_PORT" env ≡ some raw
      → (raw == "") ≡ false
      → atoi raw ≡ some port
      → IsPort env port

not_empty : (s : String) → (trim_space s == "") ≡ false → (s == "") ≡ false
unfolding trim_space trim_left trim_right
not_empty s h = elim (Bool-cases (s == "")) [
  | inl e ↦ let x = rw ((eq_iff s "").0 e) at h in absurd cc
  | inr e ↦ e
]

IsPort-some :
    (quote : String → String) (env : Dict String)
    → (port_or_error quote (lookup "DB_PORT" env)).1 ≡ []
    → IsPort env (port_or_error quote (lookup "DB_PORT" env)).0
unfolding port_or_error
IsPort-some quote env h = elim (Option-cases (lookup "DB_PORT" env)) [
  | inl e ↦ rw e (unset e)
  | inr (raw, e) ↦ elim (Bool-cases (raw == "")) [
    | inl b ↦ rw (e, b) (blank (e ∙ ap some ((eq_iff raw "").0 b)))
    | inr b ↦ elim (Option-cases (atoi raw)) [
      | inl a ↦ let x = rw (e, b, a) at h in absurd cc
      | inr (n, a) ↦ rw (e, b, a) (number raw n e b a)
    ]
  ]
]

-- DB_PORT is set, and not to an integer.
abbrev pub IsBadPort : Dict String → Type 0
IsBadPort env =
    (raw : String) × (lookup "DB_PORT" env ≡ some raw) × ((raw == "") ≡ false) × (atoi raw ≡ none)

-- What loading may give: a configuration, of which the source `osm` is built, or an error.
pub data IsLoaded (quote : String → String) (env : Dict String) : Result Config → Type 0 where
  loads :
      (cfg : Config)
      → (trim_space (get env "OSM_PBF_PATH") == "") ≡ false
      → IsPort env cfg.db_port
      → build_source quote "osm" cfg ≡ ok (osm (get env "OSM_PBF_PATH"))
      → IsLoaded quote env (ok cfg)
  refuses :
      (text : String)
      → ((trim_space (get env "OSM_PBF_PATH") == "") ≡ true) ⊎ IsBadPort env
      → IsLoaded quote env (err (message text))

-- the errors of the port, and what they say
port_cases :
    (quote : String → String) (env : Dict String)
    → ((port_or_error quote (lookup "DB_PORT" env)).1 ≡ [])
      ⊎ (IsBadPort env × ((e : String) × ((port_or_error quote (lookup "DB_PORT" env)).1 ≡ e ∷ [])))
unfolding port_or_error
port_cases quote env = elim (Option-cases (lookup "DB_PORT" env)) [
  | inl e ↦ inl (rw e refl)
  | inr (raw, e) ↦ elim (Bool-cases (raw == "")) [
    | inl b ↦ inl (rw (e, b) refl)
    | inr b ↦ elim (Option-cases (atoi raw)) [
      | inl a ↦ inr (
        (raw, e, b, a),
        (String.◌++◌ "DB_PORT must be an integer, got: " (quote raw), rw (e, b, a) refl),
      )
      | inr (n, a) ↦ inl (rw (e, b, a) refl)
    ]
  ]
]

config-IsPort :
    (quote : String → String) (env : Dict String)
    → (port_or_error quote (lookup "DB_PORT" env)).1 ≡ []
    → IsPort env (config_of env (port_or_error quote (lookup "DB_PORT" env)).0).db_port
unfolding config_of
config-IsPort quote env h = IsPort-some quote env h

built :
    (quote : String → String) (env : Dict String) (n : ℤ)
    → (trim_space (get env "OSM_PBF_PATH") == "") ≡ false
    → build_source quote "osm" (config_of env n) ≡ ok (osm (get env "OSM_PBF_PATH"))
unfolding build_source config_of
built quote env n h = rw (not_empty (get env "OSM_PBF_PATH") h) refl

-- The configuration loads exactly where OSM_PBF_PATH is more than space and DB_PORT is missing, empty
-- or an integer; its port is that integer, or 5432; and the source `osm` is built from it, with the
-- path as it was given.
pub load_config-IsLoaded :
    (quote : String → String) (env : Dict String) → IsLoaded quote env (load_config quote env)
unfolding load_config osm_errors loaded_config
load_config-IsLoaded quote env =
    let port = (port_or_error quote (lookup "DB_PORT" env)).0 in
    elim (port_cases quote env) [
      | inl p ↦ elim (Bool-cases (trim_space (get env "OSM_PBF_PATH") == "")) [
        | inl t ↦ rw (t, p) (refuses _ (inl t))
        | inr t ↦
            rw (t, p)
              (loads (config_of env port) t (config-IsPort quote env p) (built quote env port t))
      ]
      | inr (bad, (e, p)) ↦ elim (Bool-cases (trim_space (get env "OSM_PBF_PATH") == "")) [
        | inl t ↦ rw (t, p) (refuses _ (inl t))
        | inr t ↦ rw (t, p) (refuses _ (inr bad))
      ]
    ]

abbrev pub assignment : String × String → String
assignment (key, value) = String.◌++◌ key (String.◌++◌ "=" value)

split_equals-assignment :
    (key value : String)
    → split_equals key ≡ none
    → split_equals (assignment (key, value)) ≡ some (key, value)
unfolding split_equals
split_equals-assignment String.[] value h = rw (append.nil, append.cons, append.nil) refl
split_equals-assignment (String.◌∷◌ c key) value h = elim (Bool-cases (eqb (code c) b'=')) [
  | inl e ↦ let x = rw e at h in absurd cc
  | inr e ↦ elim (Option-cases (split_equals key)) [
    | inl k ↦ rw (append.cons, e, split_equals-assignment key value k) refl
    | inr (kv, k) ↦ let x = rw (e, k) at h in absurd cc
  ]
]

-- What the last assignment of a key says.
abbrev pub last_from : Option String → String → List (String × String) → Option String
last_from o key [] = o
last_from o key ((k, v) ∷ es) = last_from (if k == key then some v else o) key es

environ_from-split :
    (kv k v : String) (kvs : List String) (out : Dict String)
    → split_equals kv ≡ some (k, v)
    → environ_from out (kv ∷ kvs) ≡ environ_from (insert k v out) kvs
unfolding environ_from
environ_from-split kv k v kvs out h = rw (environ_from, h) refl

environ_from-assignments :
    (key : String) (es : List (String × String)) (out : Dict String)
    → All (λ e. split_equals e.0 ≡ none) es
    → lookup key (environ_from out (map assignment es)) ≡ last_from (lookup key out) key es
unfolding environ_from
environ_from-assignments key [] out h = refl
environ_from-assignments key ((k, v) ∷ es) out h =
    ap (lookup key) (
      environ_from-split (assignment (k, v)) k v (map assignment es) out
        (split_equals-assignment k v h.0))
    ∙ environ_from-assignments key es (insert k v out) h.1
    ∙ ap (λ o. last_from o key es) (lookup-insert k key v out)

-- The map of an environment of assignments, whose keys have no `=`, has for each key what the last
-- assignment of the key says.
pub environ_as_map-assignments :
    (key : String) (es : List (String × String))
    → All (λ e. split_equals e.0 ≡ none) es
    → lookup key (environ_as_map (map assignment es)) ≡ last_from none key es
unfolding lookup
environ_as_map-assignments key es h = environ_from-assignments key es [] h
