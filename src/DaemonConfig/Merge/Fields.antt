-- ===== src/DaemonConfig/Merge/Fields.antt =====
-- What a merge of daemonconfig/lifecycle.go leaves of each field.
use zju_portal_core.Base.{
  ◌≡◌, refl, Option, none, some, String, ◌==◌, string_eq, eq_iff, inl, inr, Bool-cases, arith,
  if◌then◌else◌,
}
use zju_portal_core.DaemonConfig.Merge.{
  Value, Object, scalar, object, no_fields, field, get, put, merge_value, merge_object,
}

get-put :
    (key other : String) (v : Value) (o : Object)
    → get other (put key v o) ≡ (if key == other then some v else get other o)
unfolding get put
get-put key other v no_fields = refl
get-put key other v (field name w rest) =
    ground (arith, eq_iff key other, eq_iff name key, eq_iff name other, get-put key other v rest)

-- What a field is to be, of what the patch and the base have for it: a field that the patch does not have stays, two
-- objects are merged, and what else the patch has takes the place of the base's.
abbrev pub merged_field : Option Value → Option Value → Option Value
merged_field none base = base
merged_field (some (object patch)) (some (object base)) = some (object (merge_object base patch))
merged_field (some v) _ = some v

merge_value-merged_field :
    (v : Value) (base : Option Value) → some (merge_value v base) ≡ merged_field (some v) base
unfolding merge_value
merge_value-merged_field (object patch) (some (object base)) = refl
merge_value-merged_field (object patch) (some (scalar s)) = refl
merge_value-merged_field (object patch) none = refl
merge_value-merged_field (scalar s) base = refl

-- No name stands twice.
abbrev pub IsObject : Object → Type 0
IsObject no_fields = Unit {0}
IsObject (field name v rest) = (get name rest ≡ none) × IsObject rest

-- Of a patch in which no name stands twice: after a merge a field is the merge of both objects where the patch and
-- the base have an object for it, what the patch has otherwise, and the base's if the patch does not have it.
pub get-merge_object :
    (key : String) (base patch : Object)
    → IsObject patch
    → get key (merge_object base patch) ≡ merged_field (get key patch) (get key base)
unfolding merge_object get
get-merge_object key base no_fields h = refl
get-merge_object key base (field name v patch) (h, k) = elim (Bool-cases (name == key)) [
  | inl same ↦ ground (
    arith,
    same,
    eq_iff name key,
    h,
    get-merge_object key (put name (merge_value v (get name base)) base) patch k,
    get-put name key (merge_value v (get name base)) base,
    merge_value-merged_field v (get name base),
  )
  | inr apart ↦ ground (
    arith,
    apart,
    get-merge_object key (put name (merge_value v (get name base)) base) patch k,
    get-put name key (merge_value v (get name base)) base,
  )
]
