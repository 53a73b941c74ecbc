-- ===== src/Rows/Read.antt =====
-- Reading keys and rows of a batch (fdapquery-physical-plan/src/hash_join_exec.rs).
use fdapquery.Base.{
  ℕ, zero, suc, ◌+◌, ◌<◌, ◌≡◌, refl, subst, ap, some, List, [], ◌∷◌, length, get_elem?, All, arith,
}
use fdapquery.External.{External}
use fdapquery.Arrow.{Arrow}
use fdapquery.Errors.{Outcome, ok, ◌>>=◌, traverse, bind-eq-ok, ok-injective}
use fdapquery.Scalar.{ScalarValue}
use fdapquery.Scalar.Arrays.{try_from_array}
use fdapquery.Rows.{Row, full_row, column_at, key_of, columns_of, for_rows, rows_from, read_rows}

-- The left fold of a state over the elements of a list.
unfoldable pub foldl {ℓ κ} : {A : Type ℓ} {S : Type κ} → (S → A → S) → S → List A → S
foldl step s [] = s
foldl step s (x ∷ xs) = foldl step (step s x) xs

module _ ⦃ext : External⦄ where
  -- A row's value at a position; the positions of a key are in range.
  unfoldable pub cell_at : Row → ℕ → ScalarValue
  cell_at [] k = ScalarValue.null
  cell_at (v ∷ vs) zero = v
  cell_at (v ∷ vs) (suc k) = cell_at vs k

  unfoldable pub row_key : List ℕ → Row → Row
  unfolding cell_at
  row_key [] r = []
  row_key (k ∷ ks) r = cell_at r k ∷ row_key ks r

  abbrev pub HasKey : List ℕ → Row → Type 0
  HasKey keys r = All (λ k. k < length r) keys

  module _ {A : Type 0} (f : A → Outcome ScalarValue) where
    -- The results of a traversal that succeeds.
    pub data Reads : List A → Row → Type 0 where
      nil : Reads [] []
      cons :
          {x : A} {xs : List A} {v : ScalarValue} {vs : Row}
          → f x ≡ ok v
          → Reads xs vs
          → Reads (x ∷ xs) (v ∷ vs)

    pub traverse-Reads : (xs : List A) (ys : Row) → traverse f xs ≡ ok ys → Reads xs ys
    unfolding traverse
    traverse-Reads [] ys h = subst (Reads []) (ok-injective h) nil
    traverse-Reads (x ∷ xs) ys h =
        let (v, hv, rest) = bind-eq-ok (f x) (λ b. traverse f xs >>= λ bs. ok (b ∷ bs)) h in
        let (vs, hvs, e) = bind-eq-ok (traverse f xs) (λ bs. ok (v ∷ bs)) rest in
        subst (Reads (x ∷ xs)) (ok-injective e) (cons hv (traverse-Reads xs vs hvs))

    pub Reads-traverse : {xs : List A} {ys : Row} → Reads xs ys → traverse f xs ≡ ok ys
    unfolding traverse
    Reads-traverse nil = refl
    Reads-traverse (cons h r) = rw (h, Reads-traverse r) refl

    -- What was read at a position.
    Reads-get :
        {xs : List A} {ys : Row} (k : ℕ)
        → Reads xs ys
        → k < length ys
        → (x : A) × (get_elem? xs k ≡ some x) × (f x ≡ ok (cell_at ys k))
    unfolding cell_at
    Reads-get k nil lt = absurd (omega arith)
    Reads-get zero (cons {x = x} h r) lt = (x, refl, h)
    Reads-get (suc k) (cons h r) lt = Reads-get k r (omega arith)

module _ ⦃ext : External⦄ ⦃arrow : Arrow⦄ where
  pub key_of-row_key :
      (cols : List arrow.ArrayRef) (keys : List ℕ) (i : ℕ) (r : Row)
      → full_row cols i ≡ ok r
      → HasKey keys r
      → key_of cols keys i ≡ ok (row_key keys r)
  unfolding key_of row_key traverse full_row
  key_of-row_key cols [] i r h ks = refl
  key_of-row_key cols (k ∷ keys) i r h (lt, ks) =
      let read = traverse-Reads (λ c. try_from_array c i) cols r h in
      let (c, at, v) = Reads-get (λ c. try_from_array c i) k read lt in
      rw (column_at, at, v, key_of-row_key cols keys i r h ks) refl

  pub rows_from-cons :
      (batch : arrow.RecordBatch) (row count : ℕ) (rows : List Row)
      → rows_from batch row (suc count) ≡ ok rows
      → (r : Row) × (rs : List Row) × (full_row (columns_of batch) row ≡ ok r)
        × (rows_from batch (row + 1) count ≡ ok rs)
        × (r ∷ rs ≡ rows)
  unfolding rows_from
  rows_from-cons batch row count rows h =
      let (r, hr, rest) =
        bind-eq-ok (full_row (columns_of batch) row)
          (λ r. rows_from batch (row + 1) count >>= λ rs. ok (r ∷ rs)) h in
      let (rs, hrs, e) = bind-eq-ok (rows_from batch (row + 1) count) (λ rs. ok (r ∷ rs)) rest in
      (r, rs, hr, hrs, ok-injective e)

  -- A loop whose body reads a row, with its key, and steps by them is a fold over the rows.
  module _ {S : Type 0} (keys : List ℕ) (batch : arrow.RecordBatch) (step : S → Row → S)
      (body : ℕ → S → Outcome S) where
    abbrev Steps : Type 0
    Steps =
        (row : ℕ) (s : S) (r : Row)
        → full_row (columns_of batch) row ≡ ok r
        → key_of (columns_of batch) keys row ≡ ok (row_key keys r)
        → body row s ≡ ok (step s r)

    for_rows-foldl :
        (row count : ℕ) (rows : List Row) (s : S)
        → Steps
        → rows_from batch row count ≡ ok rows
        → All (HasKey keys) rows
        → for_rows body row count s ≡ ok (foldl step s rows)
    unfolding for_rows foldl rows_from
    for_rows-foldl row zero rows s steps h ks = ap (λ rows. ok (foldl step s rows)) (ok-injective h)
    for_rows-foldl row (suc count) rows s steps h ks =
        let (r, rs, hr, hrs, e) = rows_from-cons batch row count rows h in
        subst
          (λ rows.
            All (HasKey keys) rows
            → (body row s >>= λ s'. for_rows body (row + 1) count s') ≡ ok (foldl step s rows))
          e
          (λ all.
            rw (steps row s r hr (key_of-row_key (columns_of batch) keys row r hr all.0))
              (for_rows-foldl (row + 1) count rs (step s r) steps hrs all.1))
          ks

    -- The same over a whole batch.
    pub for_batch-foldl :
        (rows : List Row) (s : S)
        → Steps
        → read_rows batch ≡ ok rows
        → All (HasKey keys) rows
        → for_rows body 0 (arrow.num_rows batch) s ≡ ok (foldl step s rows)
    unfolding read_rows
    for_batch-foldl rows s steps h ks = for_rows-foldl 0 (arrow.num_rows batch) rows s steps h ks
