-- ===== src/Models/Columns.antt =====
-- The Scan and Value methods of pkg/models: what goes into a JSONB column and what comes out of one.
-- encoding/json is the parameter `Marshaler`; json.Unmarshal works on what the destination has already.
-- A map that is nil is `none`. The errors are those of the methods, and the destination is given
-- back beside them.
use inwheel_api.Common.{String, Option, none, some, []}
use inwheel_api.Common.Dict.{Dict}
use inwheel_api.Common.Result.{Error, message, Result, ok, err}

-- driver.Value, as far as the methods tell them apart
pub data Column : Type 0 where
  null : Column
  bytes : String → Column
  not_bytes : Column

pub record Marshaler (V : Type 0) : Type 0 where
  pub marshal : V → Result String
  -- the error, or none, and what is left in the destination
  pub unmarshal : String → V → Option Error × V

stored_bytes : Result String → Result Column
stored_bytes (ok b) = ok (bytes b)
stored_bytes (err e) = err e

module _ {V : Type 0} (json : Marshaler V) where
  -- scanJSONB
  unfoldable pub scan_jsonb : Column → V → Option Error × V
  scan_jsonb null dest = (none, dest)
  scan_jsonb not_bytes dest = (some (message "type assertion to []byte failed"), dest)
  scan_jsonb (bytes b) dest = json.unmarshal b dest

  -- marshalJSONB
  unfoldable pub marshal_jsonb : V → Result Column
  unfolding stored_bytes
  marshal_jsonb v = stored_bytes (json.marshal v)

  -- Geometry.Scan
  unfoldable pub scan_geometry : Column → V → Option Error × V
  scan_geometry null dest = (none, dest)
  scan_geometry not_bytes dest =
      (some (message "type assertion to []byte failed for Geometry"), dest)
  scan_geometry (bytes b) dest = json.unmarshal b dest

  -- Geometry.Value; a nil pointer is NULL
  unfoldable pub value_geometry : Option V → Result Column
  unfolding stored_bytes
  value_geometry none = ok null
  value_geometry (some g) = stored_bytes (json.marshal g)

module _ {V : Type 0} (json : Marshaler (Option (Dict V))) where
  -- PlaceTags.Scan and ExternalIDs.Scan, by the name of the type
  unfoldable scan_map : String → Column → Option (Dict V) → Option Error × Option (Dict V)
  scan_map text null dest = (none, some [])
  scan_map text not_bytes dest = (some (message text), dest)
  scan_map text (bytes b) dest = json.unmarshal b dest

  -- PlaceTags.Value and ExternalIDs.Value
  unfoldable value_map : Option (Dict V) → Result Column
  unfolding stored_bytes
  value_map none = stored_bytes (json.marshal (some []))
  value_map (some m) = stored_bytes (json.marshal (some m))

  unfoldable pub scan_tags : Column → Option (Dict V) → Option Error × Option (Dict V)
  unfolding scan_map
  scan_tags column dest = scan_map "type assertion to []byte failed for PlaceTags" column dest

  unfoldable pub value_tags : Option (Dict V) → Result Column
  unfolding value_map
  value_tags m = value_map m

  unfoldable pub scan_external_ids : Column → Option (Dict V) → Option Error × Option (Dict V)
  unfolding scan_map
  scan_external_ids column dest =
      scan_map "type assertion to []byte failed for ExternalIDs" column dest

  unfoldable pub value_external_ids : Option (Dict V) → Result Column
  unfolding value_map
  value_external_ids m = value_map m
