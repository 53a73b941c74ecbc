-- ===== src/Aggregate/Fold.antt =====
-- The loops of fdapquery-physical-plan/src/aggregate_exec.rs over batches, as one over their rows.
use mathlib.Core.Path.{fun_ext}
use fdapquery.Base.{
  ℕ, zero, suc, ◌+◌, ◌<◌, ◌≡◌, refl, sym, ap, ◌∙◌, subst, List, [], ◌∷◌, ◌++◌, map, length, All,
}
use fdapquery.External.{External}
use fdapquery.Arrow.{Kind, Arrow}
use fdapquery.Errors.{Outcome, ok, err, panic, ◌>>=◌, traverse, ok-injective}
use fdapquery.Scalar.{ScalarValue}
use fdapquery.Scalar.Arrays.{try_from_array}
use fdapquery.PhysicalExpr.{AggregateExpr}
use fdapquery.Rows.{Row, full_row, columns_of, for_rows, rows_from, read_rows}
use fdapquery.Rows.Read.{row_key, HasKey, key_of-row_key, rows_from-cons, Reads, traverse-Reads}
use fdapquery.RowKey.{Hashing}
use fdapquery.ColumnarValue.{evaluate_column}
use fdapquery.Distributed.{AggregateMode}
use fdapquery.Accumulator.{Floats}
use fdapquery.Accumulator.Kinds.{Accumulator, Conversions}
use fdapquery.Shuffle.Targets.{key_columns-columns}
use fdapquery.Shuffle.Select.{read_rows-RowsFrom}
use fdapquery.Shuffle.Pick.{OfKinds}
use fdapquery.Shuffle.Buffers.{Inputs, nil, cons, RowsFrom-HasKey, OfKinds-length}
use fdapquery.Aggregate.{
  AggregateExec, GroupTable, fresh, feed, feed_cells, update_group, group_row, group_batch,
  group_all,
}

module _ ⦃ext : External⦄ where
  -- A fold whose steps may fail.
  unfoldable pub fold_rows : {S : Type 0} → (S → Row → Outcome S) → S → List Row → Outcome S
  fold_rows step s [] = ok s
  fold_rows step s (r ∷ rows) = do s' ← step s r; fold_rows step s' rows

  pub bind-ext :
      {A B : Type 0} (m : Outcome A) (f g : A → Outcome B)
      → ((a : A) → f a ≡ g a)
      → (m >>= f) ≡ (m >>= g)
  bind-ext m f g h = ap (λ k. m >>= k) (fun_ext h)

  pub bind_assoc :
      {A B C : Type 0} (m : Outcome A) (f : A → Outcome B) (g : B → Outcome C)
      → ((m >>= f) >>= g) ≡ (m >>= λ a. f a >>= g)
  bind_assoc (ok a) f g = refl
  bind_assoc (err e) f g = refl
  bind_assoc (panic p) f g = refl

  pub bind-ok : {A : Type 0} (m : Outcome A) → (m >>= λ a. ok a) ≡ m
  bind-ok (ok a) = refl
  bind-ok (err e) = refl
  bind-ok (panic p) = refl

  pub fold_rows-append :
      {S : Type 0} (step : S → Row → Outcome S) (s : S) (xs ys : List Row)
      → fold_rows step s (xs ++ ys) ≡ (fold_rows step s xs >>= λ s'. fold_rows step s' ys)
  unfolding fold_rows
  fold_rows-append step s [] ys = refl
  fold_rows-append step s (x ∷ xs) ys =
      bind-ext (step s x) (λ s'. fold_rows step s' (xs ++ ys)) _
        (λ s'. fold_rows-append step s' xs ys)
      ∙ sym (bind_assoc (step s x) (λ s'. fold_rows step s' xs) (λ s'. fold_rows step s' ys))

module _ ⦃ext : External⦄ ⦃floats : Floats⦄ ⦃conversions : Conversions⦄ where
  -- The accumulators after a row's values.
  unfoldable pub feed_values :
      AggregateMode → List ScalarValue → List Accumulator → Outcome (List Accumulator)
  unfolding feed
  feed_values mode vs [] = ok []
  feed_values mode [] (acc ∷ accs) = panic "index out of bounds"
  feed_values mode (v ∷ vs) (acc ∷ accs) = do
    acc' ← feed mode acc v
    accs' ← feed_values mode vs accs
    ok (acc' ∷ accs')

module _ ⦃ext : External⦄ ⦃hashing : Hashing⦄ ⦃floats : Floats⦄ ⦃conversions : Conversions⦄
    (mode : AggregateMode) (aggs : List AggregateExpr) (keys cols : List ℕ) where
  -- The table after a row.
  unfoldable pub group_step : GroupTable → Row → Outcome GroupTable
  group_step table r =
      update_group (row_key keys r) (fresh aggs) (feed_values mode (row_key cols r)) table

module _ ⦃ext : External⦄ ⦃arrow : Arrow⦄ ⦃hashing : Hashing⦄ ⦃floats : Floats⦄
    ⦃conversions : Conversions⦄ (mode : AggregateMode) (aggs : List AggregateExpr)
    (keys cols : List ℕ) where
  feed_cells-values :
      (row : ℕ) (accs : List Accumulator) {inputs : List arrow.ArrayRef} {vs : Row}
      → Reads (λ c. try_from_array c row) inputs vs
      → feed_cells mode inputs row accs ≡ feed_values mode vs accs
  unfolding feed_cells feed_values
  feed_cells-values row [] read = refl
  feed_cells-values row (acc ∷ accs) Reads.nil = refl
  feed_cells-values row (acc ∷ accs) (Reads.cons {v = v} h read) = rw h (
      bind-ext (feed mode acc v) _ _
        (λ acc'. ap (λ m. m >>= λ accs'. ok (acc' ∷ accs')) (feed_cells-values row accs read)))

  group_row-step :
      (batch : arrow.RecordBatch) (ks cs : List arrow.ArrayRef) (row : ℕ) (table : GroupTable)
      (r : Row)
      → traverse (λ c. try_from_array c row) ks ≡ ok (row_key keys r)
      → traverse (λ c. try_from_array c row) cs ≡ ok (row_key cols r)
      → group_row mode aggs ks cs row table ≡ group_step mode aggs keys cols table r
  unfolding group_row group_step
  group_row-step batch ks cs row table r hk hc = rw hk (
      ap (λ change. update_group (row_key keys r) (fresh aggs) change table)
        (fun_ext (λ accs.
          feed_cells-values row accs
            (traverse-Reads (λ c. try_from_array c row) cs (row_key cols r) hc))))

  for_rows-fold :
      {S : Type 0} (batch : arrow.RecordBatch) (body : ℕ → S → Outcome S)
      (step : S → Row → Outcome S) (row count : ℕ) (rows : List Row) (s : S)
      → ((row : ℕ) (s : S) (r : Row)
          → full_row (columns_of batch) row ≡ ok r
          → HasKey keys r
          → HasKey cols r
          → body row s ≡ step s r)
      → rows_from batch row count ≡ ok rows
      → All (HasKey keys) rows
      → All (HasKey cols) rows
      → for_rows body row count s ≡ fold_rows step s rows
  unfolding for_rows fold_rows rows_from
  for_rows-fold batch body step row zero rows s same h hk hc =
      ap (fold_rows step s) (ok-injective h)
  for_rows-fold batch body step row (suc count) rows s same h hk hc =
      let (r, rs, hr, hrs, e) = rows_from-cons batch row count rows h in
      let hk' = subst (All (HasKey keys)) (sym e) hk in
      let hc' = subst (All (HasKey cols)) (sym e) hc in
      ap (λ m. m >>= λ s'. for_rows body (row + 1) count s') (same row s r hr hk'.0 hc'.0)
      ∙ bind-ext (step s r) (λ s'. for_rows body (row + 1) count s') (λ s'. fold_rows step s' rs)
          (λ s'. for_rows-fold batch body step (row + 1) count rs s' same hrs hk'.1 hc'.1)
      ∙ ap (fold_rows step s) e

module _ ⦃ext : External⦄ ⦃arrow : Arrow⦄ ⦃hashing : Hashing⦄ ⦃floats : Floats⦄
    ⦃conversions : Conversions⦄ (plan : AggregateExec) (ks : List Kind) (keys cols : List ℕ)
    (groups : plan.group_expr ≡ map evaluate_column keys)
    (inputs : map (λ a. a.input_expression) plan.aggr_expr ≡ map evaluate_column cols)
    (keys_in_range : All (λ k. k < length ks) keys)
    (cols_in_range : All (λ k. k < length ks) cols) where
  -- The step of a plan.
  abbrev pub plan_step : GroupTable → Row → Outcome GroupTable
  plan_step = group_step plan.mode (map (λ a. a.aggregate) plan.aggr_expr) keys cols

  group_batch-fold :
      (batch : arrow.RecordBatch) (rows : List Row) (table : GroupTable)
      → OfKinds ks (columns_of batch)
      → read_rows batch ≡ ok rows
      → group_batch plan batch table ≡ fold_rows plan_step table rows
  unfolding group_batch read_rows
  group_batch-fold batch rows table of read =
      let range = λ (xs : List ℕ) (h : All (λ k. k < length ks) xs).
        subst (λ m. All (λ k. k < m) xs) (sym (OfKinds-length ks (columns_of batch) of)) h in
      let have = λ (xs : List ℕ) (h : All (λ k. k < length ks) xs).
        RowsFrom-HasKey xs (columns_of batch) (range xs h) (read_rows-RowsFrom batch rows read) in
      let (kcs, ek, same_k) = key_columns-columns keys batch (range keys keys_in_range) in
      let (ccs, ec, same_c) = key_columns-columns cols batch (range cols cols_in_range) in
      rw (groups, ek, inputs, ec)
        (for_rows-fold plan.mode (map (λ a. a.aggregate) plan.aggr_expr) keys cols batch
          (group_row plan.mode (map (λ a. a.aggregate) plan.aggr_expr) kcs ccs) plan_step 0
          (arrow.num_rows batch) rows table
          (λ row s r full hk hc.
            group_row-step plan.mode (map (λ a. a.aggregate) plan.aggr_expr) keys cols batch kcs ccs
              row s r (same_k row ∙ key_of-row_key (columns_of batch) keys row r full hk)
              (same_c row ∙ key_of-row_key (columns_of batch) cols row r full hc))
          read (have keys keys_in_range) (have cols cols_in_range))

  -- The loop over the input is the fold over its rows.
  pub group_all-fold :
      (batches : List arrow.RecordBatch) (rows : List Row) (table : GroupTable)
      → Inputs ks batches rows
      → group_all plan (map ok batches) table ≡ fold_rows plan_step table rows
  unfolding group_all fold_rows
  group_all-fold [] _ table nil = refl
  group_all-fold (batch ∷ batches) _ table (cons {rows = rows} {rest = rest} of read more) =
      rw (group_batch-fold batch rows table of read) (
        bind-ext (fold_rows plan_step table rows) (λ t. group_all plan (map ok batches) t)
          (λ t. fold_rows plan_step t rest) (λ t. group_all-fold batches rest t more)
        ∙ sym (fold_rows-append plan_step table rows rest))
