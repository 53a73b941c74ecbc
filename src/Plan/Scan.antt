-- ===== src/Plan/Scan.antt =====
-- fdapquery-expr/src/scan.rs, table_source.rs: the scan of a table, with the schema that it
-- computes once from the source and the projection. An empty projection means every column.
use fdapquery.Base.{
  ℕ, zero, suc, String, Bool, Option, none, some, List, [], ◌∷◌, if◌then◌else◌, is_empty, concat,
}
use fdapquery.External.{External}
use fdapquery.Errors.{Outcome, ok, schema_error, ◌>>=◌, ok_or, from_arrow, traverse}
use fdapquery.Expr.Field.{has_name}

-- Rust's `position`.
unfoldable pub position {ℓ} : {A : Type ℓ} → (A → Bool) → List A → Option ℕ
position p [] = none
position p (x ∷ xs) =
    if p x then some zero else elim (position p xs) [ none ↦ none | some i ↦ some (suc i) ]

module _ ⦃ext : External⦄ where
  -- The trait's `schema`. Its `as_any` serves other components.
  pub record TableSource : Type 0 where
    pub schema : ext.Schema

  pub record TableScan : Type 0 where
    pub path : String
    pub data_source : TableSource
    pub projection : List String
    pub schema : ext.Schema

  unfoldable pub name_position : ext.Schema → String → Outcome ℕ
  name_position schema n =
      ok_or (position (has_name n) (ext.fields schema)) (
        schema_error (concat ("Scan::derive_schema: column '" ∷ n ∷ "' not in source schema" ∷ [])))

  unfoldable pub derive_schema : TableSource → List String → Outcome ext.Schema
  unfolding name_position
  derive_schema source projection = if is_empty projection then ok source.schema else do
    indices ← traverse (name_position source.schema) projection
    from_arrow (ext.project source.schema indices)

  unfoldable pub new_scan : String → TableSource → List String → Outcome TableScan
  new_scan path source projection = do
    schema ← derive_schema source projection
    ok (record { path = path; data_source = source; projection = projection; schema = schema })
