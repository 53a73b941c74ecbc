-- ===== src/Join/HashTable.antt =====
-- The hash map of fdapquery-physical-plan/src/hash_join_exec.rs, `combine_rows`, and what the map
-- holds after a list of rows.
use mathlib.Core.List.{append_assoc, append-nil}
use fdapquery.Base.{
  ℕ, ◌+◌, ◌≡◌, refl, ap, sym, ◌∙◌, inl, inr, Bool, false, ◌||◌, Option, none, some, List, [], ◌∷◌,
  ◌++◌, ◌==◌, if◌then◌else◌, filter, arith, Bool-cases,
}
use fdapquery.External.{External}
use fdapquery.Rows.{Row}
use fdapquery.Rows.Read.{foldl, row_key}
use fdapquery.RowKey.{Hashing, row_eq}
use fdapquery.RowKey.Laws.{row_eq_iff}

unfoldable pub contains_index : List ℕ → ℕ → Bool
contains_index [] i = false
contains_index (j ∷ js) i = j == i || contains_index js i

-- The elements of a right row that are not excluded, from a position on.
unfoldable pub kept : {A : Type 0} → List ℕ → ℕ → List A → List A
kept excluded i [] = []
kept excluded i (v ∷ vs) =
    let rest = kept excluded (i + 1) vs in if contains_index excluded i then rest else v ∷ rest

module _ ⦃ext : External⦄ where
  -- `hash_table.entry(key).or_default().push(row)`.
  abbrev pub Table : Type 0
  Table = List (Row × List Row)

  unfoldable pub combine_rows : Row → Row → (right_columns_to_exclude : List ℕ) → Row
  unfolding kept
  combine_rows left right excluded = left ++ kept excluded 0 right

module _ ⦃ext : External⦄ ⦃hashing : Hashing⦄ where
  unfoldable pub insert_row : Row → Row → Table → Table
  insert_row key row [] = (key, row ∷ []) ∷ []
  insert_row key row ((k, rows) ∷ table) =
      if row_eq k key then (k, rows ++ row ∷ []) ∷ table else (k, rows) ∷ insert_row key row table

  -- `hash_table.get(&key)`.
  unfoldable pub get_rows : Row → Table → Option (List Row)
  get_rows key [] = none
  get_rows key ((k, rows) ∷ table) = if row_eq k key then some rows else get_rows key table

  -- Whether a `HashSet<RowKey>` has a key.
  unfoldable pub contains_key : List Row → Row → Bool
  contains_key [] key = false
  contains_key (k ∷ ks) key = row_eq k key || contains_key ks key

  -- The rows of a list that have a key, in order.
  unfoldable pub matches : List ℕ → Row → List Row → List Row
  matches keys key rows = filter (λ r. row_eq (row_key keys r) key) rows

  unfoldable pub add_rows : List ℕ → Table → List Row → Table
  add_rows keys table rows = foldl (λ t r. insert_row (row_key keys r) r t) table rows

  -- Rows added to what was found.
  unfoldable pub found : Option (List Row) → List Row → Option (List Row)
  found none [] = none
  found none (r ∷ rs) = some (r ∷ rs)
  found (some rows) rs = some (rows ++ rs)

  get_rows-insert_row :
      (key key' row : Row) (table : Table)
      → get_rows key (insert_row key' row table)
        ≡ (if row_eq key' key then found (get_rows key table) (row ∷ []) else get_rows key table)
  unfolding get_rows insert_row found
  get_rows-insert_row key key' row [] = ground arith
  get_rows-insert_row key key' row ((k, rows) ∷ table) = ground (
    arith,
    row_eq_iff k key',
    row_eq_iff k key,
    row_eq_iff key' key,
    get_rows-insert_row key key' row table,
  )

  found-found :
      (o : Option (List Row)) (r : Row) (rs : List Row)
      → found (found o (r ∷ [])) rs ≡ found o (r ∷ rs)
  unfolding found
  found-found none r rs = refl
  found-found (some rows) r rs = ap some (append_assoc rows (r ∷ []) rs)

  found-nil : (o : Option (List Row)) → found o [] ≡ o
  unfolding found
  found-nil none = refl
  found-nil (some rows) = ap some (append-nil rows)

  -- A key finds the rows that were added under it, in order.
  pub get_rows-add_rows :
      (keys : List ℕ) (key : Row) (table : Table) (rows : List Row)
      → get_rows key (add_rows keys table rows) ≡ found (get_rows key table) (matches keys key rows)
  unfolding add_rows matches foldl filter
  get_rows-add_rows keys key table [] = sym (found-nil (get_rows key table))
  get_rows-add_rows keys key table (r ∷ rows) =
      get_rows-add_rows keys key (insert_row (row_key keys r) r table) rows
      ∙ elim (Bool-cases (row_eq (row_key keys r) key)) [
        | inl e ↦
            rw (get_rows-insert_row key (row_key keys r) r table, e)
              (found-found (get_rows key table) r (matches keys key rows))
        | inr e ↦ rw (get_rows-insert_row key (row_key keys r) r table, e) refl
      ]
