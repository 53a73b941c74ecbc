-- ===== src/Shuffle/Select.antt =====
-- The rows of a batch that are taken (fdapquery-physical-plan/src/shuffle_writer_exec.rs,
-- `select_rows`).
use fdapquery.Base.{
  ℕ, zero, suc, ◌+◌, ◌≡◌, refl, sym, ap, ◌∙◌, subst, Bool, true, false, Option, none, some, List,
  [], ◌∷◌, ◌++◌, map, length, get_elem?, arith, inl, inr, Bool-cases, leb,
}
use mathlib.Core.List.{append_assoc, append-nil}
use fdapquery.External.{External}
use fdapquery.Arrow.{Kind, Native, type_of, Arrow}
use fdapquery.Errors.{FdapQueryError, ok, err, ◌>>=◌, traverse, bind-eq-ok, ok-injective}
use fdapquery.Scalar.{ScalarValue}
use fdapquery.Scalar.Arrays.{cell_of, try_from_array, try_from_array-finish}
use fdapquery.Scalar.Builder.{append_value-cell_of, build, new_builder}
use fdapquery.Rows.{Row, full_row, columns_of, rows_from, read_rows}
use fdapquery.Rows.Read.{rows_from-cons}
use fdapquery.Rows.Write.{get_elem?-lt}
use fdapquery.Shuffle.{select_cells, select_column}

-- The elements at the places that are taken.
unfoldable pub pick {ℓ} : {A : Type ℓ} → List Bool → List A → List A
pick [] xs = []
pick (t ∷ take) [] = []
pick (true ∷ take) (x ∷ xs) = x ∷ pick take xs
pick (false ∷ take) (x ∷ xs) = pick take xs

pub pick-map {ℓ κ} :
    {A : Type ℓ} {B : Type κ} (f : A → B) (take : List Bool) (xs : List A)
    → pick take (map f xs) ≡ map f (pick take xs)
unfolding pick
pick-map f [] xs = refl
pick-map f (t ∷ take) [] = refl
pick-map f (true ∷ take) (x ∷ xs) = ap (λ ys. f x ∷ ys) (pick-map f take xs)
pick-map f (false ∷ take) (x ∷ xs) = pick-map f take xs

pub length-map {ℓ κ} :
    {A : Type ℓ} {B : Type κ} (f : A → B) (xs : List A) → length (map f xs) ≡ length xs
length-map f [] = refl
length-map f (x ∷ xs) = ap suc (length-map f xs)

pub get_elem?-map {ℓ κ} :
    {A : Type ℓ} {B : Type κ} (f : A → B) (xs : List A) (i : ℕ) (x : A)
    → get_elem? xs i ≡ some x
    → get_elem? (map f xs) i ≡ some (f x)
get_elem?-map f [] i x h = cc
get_elem?-map f (y ∷ xs) zero x h = cc
get_elem?-map f (y ∷ xs) (suc i) x h = get_elem?-map f xs i x h

get_elem?-map_inv {ℓ κ} :
    {A : Type ℓ} {B : Type κ} (f : A → B) (xs : List A) (i : ℕ) (v : B)
    → get_elem? (map f xs) i ≡ some v
    → (x : A) × (get_elem? xs i ≡ some x) × (f x ≡ v)
get_elem?-map_inv f [] i v h = cc
get_elem?-map_inv f (y ∷ xs) zero v h = (y, refl, cc)
get_elem?-map_inv f (y ∷ xs) (suc i) v h = get_elem?-map_inv f xs i v h

module _ ⦃ext : External⦄ ⦃arrow : Arrow⦄ where
  err_ne_ok : {A : Type 0} {e : FdapQueryError} {a : A} → ¬ (err e ≡ ok a)
  err_ne_ok h = cc

  -- A cell of an array of a supported type.
  data IsCell (k : Kind) : ScalarValue → Type 0 where
    cell : (o : Option (Native k)) → IsCell k (cell_of k o)

  try_from_array-IsCell :
      (c : arrow.ArrayRef) (k : Kind) (row : ℕ) (v : ScalarValue)
      → arrow.array_type c ≡ type_of k
      → try_from_array c row ≡ ok v
      → IsCell k v
  unfolding try_from_array cell_of
  try_from_array-IsCell c k row v t h = elim (Bool-cases (leb (arrow.array_len c) row)) [
    | inl e ↦ absurd (err_ne_ok (rw e at h))
    | inr e ↦ elim (Bool-cases (arrow.is_null_at c row)) [
      | inl e' ↦ subst (IsCell k) (ok-injective (rw (e, e') at h)) (cell none)
      | inr e' ↦
          subst (IsCell k) (ok-injective (rw (e, e', t, arrow.kind_of-type_of k) at h))
            (cell (some (arrow.value k c row)))
    ]
  ]

  -- The cells of a column from a row on.
  pub data CellsFrom (c : arrow.ArrayRef) : ℕ → List ScalarValue → Type 0 where
    nil : {row : ℕ} → CellsFrom c row []
    cons :
        {row : ℕ} {v : ScalarValue} {vs : List ScalarValue}
        → try_from_array c row ≡ ok v
        → CellsFrom c (row + 1) vs
        → CellsFrom c row (v ∷ vs)

  -- What the taken cells from a row on append.
  Selected :
      arrow.ArrayRef
      → (k : Kind) → ℕ
      → List Bool
      → List ScalarValue
      → List (Option (Native k))
      → Type 0
  Selected c k row take vs values =
      (os : List (Option (Native k))) × (select_cells c row take
          (record { kind = k; values = values })
        ≡ ok (record { kind = k; values = values ++ os }))
      × (map (cell_of k) os ≡ pick take vs)

  taken :
      (c : arrow.ArrayRef) (k : Kind) (row : ℕ) (take : List Bool) (v : ScalarValue)
      (vs : List ScalarValue) (values : List (Option (Native k)))
      → IsCell k v
      → try_from_array c row ≡ ok v
      → ((values' : List (Option (Native k))) → Selected c k (row + 1) take vs values')
      → Selected c k row (true ∷ take) (v ∷ vs) values
  unfolding Selected select_cells pick
  taken c k row take v vs values (cell o) h rest =
      let (os, e, cells) = rest (values ++ o ∷ []) in
      (
        o ∷ os,
        rw (h, append_value-cell_of (record { kind = k; values = values }) o)
            (e
              ∙ ap (λ (xs : List (Option (Native k))). ok (record { kind = k; values = xs }))
                  (append_assoc values (o ∷ []) os)),
        ap (λ xs. cell_of k o ∷ xs) cells,
      )

  select_cells-pick :
      (c : arrow.ArrayRef) (k : Kind) (row : ℕ) (take : List Bool) (vs : List ScalarValue)
      (values : List (Option (Native k)))
      → arrow.array_type c ≡ type_of k
      → CellsFrom c row vs
      → length take ≡ length vs
      → Selected c k row take vs values
  unfolding Selected select_cells pick
  select_cells-pick c k row [] vs values t cs l = (
    [],
    ap (λ (xs : List (Option (Native k))). ok (record { kind = k; values = xs }))
        (sym (append-nil values)),
    refl,
  )
  select_cells-pick c k row (b ∷ take) _ values t nil l = absurd (omega (arith, l))
  select_cells-pick c k row (false ∷ take) _ values t (cons {v = v} {vs = vs} h cs) l =
      select_cells-pick c k (row + 1) take vs values t cs (omega (arith, l))
  select_cells-pick c k row (true ∷ take) _ values t (cons {v = v} {vs = vs} h cs) l =
      taken c k row take v vs values (try_from_array-IsCell c k row v t h) h
        λ values'. select_cells-pick c k (row + 1) take vs values' t cs (omega (arith, l))

  abbrev pub head_of : Row → ScalarValue
  head_of [] = ScalarValue.null
  head_of (v ∷ r) = v

  abbrev pub tail_of : Row → Row
  tail_of [] = []
  tail_of (v ∷ r) = r

  -- The rows of columns from a row on.
  pub data RowsFrom (cs : List arrow.ArrayRef) : ℕ → List Row → Type 0 where
    nil : {row : ℕ} → RowsFrom cs row []
    cons :
        {row : ℕ} {r : Row} {rows : List Row}
        → full_row cs row ≡ ok r
        → RowsFrom cs (row + 1) rows
        → RowsFrom cs row (r ∷ rows)

  full_row-split :
      (c : arrow.ArrayRef) (cs : List arrow.ArrayRef) (row : ℕ) (r : Row)
      → full_row (c ∷ cs) row ≡ ok r
      → (try_from_array c row ≡ ok (head_of r))
        × (full_row cs row ≡ ok (tail_of r))
        × (head_of r ∷ tail_of r ≡ r)
  unfolding full_row traverse
  full_row-split c cs row r h =
      let (v, hv, rest) =
        bind-eq-ok (try_from_array c row)
          (λ v. traverse (λ c. try_from_array c row) cs >>= λ vs. ok (v ∷ vs)) h in
      let (vs, hvs, e) =
        bind-eq-ok (traverse (λ c. try_from_array c row) cs) (λ vs. ok (v ∷ vs)) rest in
      subst
        (λ r.
          (try_from_array c row ≡ ok (head_of r))
          × (traverse (λ c. try_from_array c row) cs ≡ ok (tail_of r))
          × (head_of r ∷ tail_of r ≡ r))
        (ok-injective e) (hv, hvs, refl)

  pub RowsFrom-split :
      (c : arrow.ArrayRef) (cs : List arrow.ArrayRef) {row : ℕ} {rows : List Row}
      → RowsFrom (c ∷ cs) row rows
      → CellsFrom c row (map head_of rows)
        × RowsFrom cs row (map tail_of rows)
        × (map (λ r. head_of r ∷ tail_of r) rows ≡ rows)
  RowsFrom-split c cs nil = (nil, nil, refl)
  RowsFrom-split c cs (cons {row = row} {r = r} {rows = rows} h hs) =
      let (first, rest, whole) = full_row-split c cs row r h in
      let (cells, rests, wholes) = RowsFrom-split c cs hs in
      (cons first cells, cons rest rests, rw (whole, wholes) refl)

  rows_from-RowsFrom :
      (batch : arrow.RecordBatch) (row count : ℕ) (rows : List Row)
      → rows_from batch row count ≡ ok rows
      → RowsFrom (columns_of batch) row rows
  unfolding rows_from
  rows_from-RowsFrom batch row zero rows h =
      subst (RowsFrom (columns_of batch) row) (ok-injective h) nil
  rows_from-RowsFrom batch row (suc count) rows h =
      let (r, rs, hr, hrs, e) = rows_from-cons batch row count rows h in
      subst (RowsFrom (columns_of batch) row) e
        (cons hr (rows_from-RowsFrom batch (row + 1) count rs hrs))

  pub read_rows-RowsFrom :
      (batch : arrow.RecordBatch) (rows : List Row)
      → read_rows batch ≡ ok rows
      → RowsFrom (columns_of batch) 0 rows
  unfolding read_rows
  read_rows-RowsFrom batch rows h = rows_from-RowsFrom batch 0 (arrow.num_rows batch) rows h

  -- A column whose cells are the taken ones reads them.
  pub select_column-reads :
      (c : arrow.ArrayRef) (k : Kind) (take : List Bool) (vs : List ScalarValue)
      → arrow.array_type c ≡ type_of k
      → CellsFrom c 0 vs
      → length take ≡ length vs
      → (out : arrow.ArrayRef) × (select_column take c ≡ ok out)
        × (arrow.array_len out ≡ length (pick take vs))
        × (arrow.array_type out ≡ arrow.array_type c)
        × ((i : ℕ) (v : ScalarValue)
            → get_elem? (pick take vs) i ≡ some v
            → try_from_array out i ≡ ok v)
  unfolding select_column new_builder build Selected
  select_column-reads c k take vs t cells l =
      let (os, e, same) = select_cells-pick c k 0 take vs [] t cells l in
      (
        arrow.finish k os,
        rw (t, new_builder, arrow.kind_of-type_of k, e) refl,
        arrow.array_len-finish k os ∙ sym (length-map (cell_of k) os) ∙ ap length same,
        arrow.array_type-finish k os ∙ sym t,
        λ i v at.
            let (o, here, is) = get_elem?-map_inv (cell_of k) os i v (rw same at) in
            try_from_array-finish k os i o (get_elem?-lt os i here) here ∙ ap ok is,
      )
