-- ===== src/DaemonConfig/Merge.antt =====
-- daemonconfig/lifecycle.go: `MergeJSON`. A JSON object is its fields, each name once; a value that is no object
-- is a text. Encoding and decoding are of a library, also that of the merged object before it is decoded as a
-- configuration.
pub mod Fields
use zju_portal_core.Base.{
  Bool, true, false, Option, none, some, String, ◌==◌, string_eq, ◌⊎◌, inl, inr, if◌then◌else◌,
}
use zju_portal_core.Core.Error.{Error, plain, wrapf}
use zju_portal_core.DaemonConfig.{DaemonConfig}
use zju_portal_core.DaemonConfig.Validate.{Library, validate}

mutual
  pub data Value : Type 0 where
    scalar : String → Value
    object : Object → Value

  pub data Object : Type 0 where
    no_fields : Object
    field : String → Value → Object → Object

unfoldable pub get : String → Object → Option Value
get key no_fields = none
get key (field name v rest) = if name == key then some v else get key rest

unfoldable pub put : String → Value → Object → Object
put key v no_fields = field key v no_fields
put key v (field name w rest) =
    if name == key then field name v rest else field name w (put key v rest)

unfoldable mutual
  -- What a field of a patch makes of the field of the base.
  pub merge_value : Value → Option Value → Value
  merge_value (object patch) (some (object base)) = object (merge_object base patch)
  merge_value (object patch) (some (scalar s)) = object patch
  merge_value (object patch) none = object patch
  merge_value (scalar s) base = scalar s

  pub merge_object : Object → Object → Object
  merge_object base no_fields = base
  merge_object base (field key v patch) =
      merge_object (put key (merge_value v (get key base)) base) patch

-- `Marshal` of a configuration and of an object, and `decodeJSONObject` and `Unmarshal`.
pub record Json : Type 0 where
  pub encode_config : DaemonConfig → Error ⊎ Object
  pub decode_object : String → Error ⊎ Object
  pub decode_config : Object → Error ⊎ DaemonConfig

unfoldable pub checked_config : Option String → DaemonConfig → Error ⊎ DaemonConfig
checked_config none config = inr config
checked_config (some e) config = inl (plain e)

unfoldable pub merged_config : Library → Error ⊎ DaemonConfig → Error ⊎ DaemonConfig
merged_config lib (inl e) = inl (wrapf "decode merged config" e)
merged_config lib (inr config) = checked_config (validate lib config) config

unfoldable pub merge_patch : Library → Json → Object → Error ⊎ Object → Error ⊎ DaemonConfig
merge_patch lib json base (inl e) = inl (wrapf "decode config patch" e)
merge_patch lib json base (inr patch) =
    merged_config lib (json.decode_config (merge_object base patch))

unfoldable pub merge_base : Library → Json → String → Error ⊎ Object → Error ⊎ DaemonConfig
merge_base lib json patch (inl e) = inl (wrapf "encode base config" e)
merge_base lib json patch (inr base) = merge_patch lib json base (json.decode_object patch)

unfoldable pub merge_json : Library → Json → String → DaemonConfig → Error ⊎ DaemonConfig
merge_json lib json patch config = merge_base lib json patch (json.encode_config config)
