-- ===== src/Aggregate/Correct.antt =====
-- A hash aggregation (fdapquery-physical-plan/src/aggregate_exec.rs) beside the groups of its rows.
use mathlib.Core.List.{Perm, Permᴰ}
use fdapquery.Base.{
  ℕ, suc, ◌<◌, ◌≡◌, refl, sym, ap, ◌∙◌, subst, List, [], ◌∷◌, ◌++◌, map, length, All, filter, inl,
  inr, Bool-cases,
}
use fdapquery.External.{External}
use fdapquery.Arrow.{Kind, Arrow}
use fdapquery.Errors.{ok, ◌>>=◌, traverse, bind-eq-ok}
use fdapquery.PhysicalExpr.{AggregateExpr}
use fdapquery.Rows.{Row, read_rows, create_batch}
use fdapquery.Rows.Read.{row_key}
use fdapquery.Rows.Write.{Fits}
use fdapquery.Rows.RoundTrip.{Writes, read_rows-create_batch}
use fdapquery.RowKey.{Hashing}
use fdapquery.ColumnarValue.{evaluate_column}
use fdapquery.Join.{yield_then}
use fdapquery.Accumulator.{Floats}
use fdapquery.Accumulator.Kinds.{Accumulator, Conversions}
use fdapquery.Join.Typed.{All-Permᴰ}
use fdapquery.Join.HashTable.{contains_key}
use fdapquery.Scalar.Builder.{build, new_builder}
use fdapquery.Rows.{create}
use fdapquery.Join.HashTable.{matches}
use fdapquery.Shuffle.Select.{length-map}
use fdapquery.Shuffle.Buffers.{Inputs}
use fdapquery.Aggregate.{AggregateExec, GroupTable, output, output_batch, execute}
use fdapquery.Aggregate.Fold.{group_all-fold, bind-ext}
use fdapquery.Aggregate.Groups.{group_of, keys_of, add_key, Held, fold_rows-Held}
use fdapquery.Aggregate.Output.{append_groups-rows}

Permᴰ-map {ℓ κ} :
    {A : Type ℓ} {B : Type κ} (f : A → B) {xs ys : List A}
    → Permᴰ xs ys
    → Permᴰ (map f xs) (map f ys)
Permᴰ-map f Permᴰ.nil = Permᴰ.nil
Permᴰ-map f (Permᴰ.cons e p) = Permᴰ.cons (ap f e) (Permᴰ-map f p)
Permᴰ-map f (Permᴰ.swap e e') = Permᴰ.swap (ap f e) (ap f e')
Permᴰ-map f (Permᴰ.trans p q) = Permᴰ.trans (Permᴰ-map f p) (Permᴰ-map f q)

map-map_lem {ℓ κ κ'} :
    {A : Type ℓ} {B : Type κ} {C : Type κ'} (f : A → B) (g : B → C) (xs : List A)
    → map g (map f xs) ≡ map (λ x. g (f x)) xs
map-map_lem f g [] = refl
map-map_lem f g (x ∷ xs) = ap (λ ys. g (f x) ∷ ys) (map-map_lem f g xs)

All-map_inv {ℓ κ κ'} :
    {A : Type ℓ} {B : Type κ} (f : A → B) (P : B → Type κ') (xs : List A)
    → All P (map f xs)
    → All (λ x. P (f x)) xs
All-map_inv f P [] h = tt
All-map_inv f P (x ∷ xs) (p, h) = (p, All-map_inv f P xs h)

All-map_image {ℓ κ κ'} :
    {A : Type ℓ} {B : Type κ} (f : A → B) (P : B → Type κ') (xs : List A)
    → All (λ x. P (f x)) xs
    → All P (map f xs)
All-map_image f P [] h = tt
All-map_image f P (x ∷ xs) (p, h) = (p, All-map_image f P xs h)

All-snoc {ℓ κ} :
    {A : Type ℓ} (P : A → Type κ) (xs : List A) (x : A) → All P xs → P x → All P (xs ++ x ∷ [])
All-snoc P [] x h p = (p, tt)
All-snoc P (y ∷ xs) x (q, h) p = (q, All-snoc P xs x h p)

All-both {ℓ κ κ'} :
    {A : Type ℓ} (P : A → Type κ) (Q : A → Type κ') (xs : List A)
    → All P xs
    → All Q xs
    → All (λ x. P x × Q x) xs
All-both P Q [] h k = tt
All-both P Q (x ∷ xs) (p, h) (q, k) = ((p, q), All-both P Q xs h k)

module _ ⦃ext : External⦄ ⦃hashing : Hashing⦄ where
  length-row_key : (keys : List ℕ) (r : Row) → length (row_key keys r) ≡ length keys
  unfolding row_key
  length-row_key [] r = refl
  length-row_key (k ∷ keys) r = ap suc (length-row_key keys r)

  keys_of-lengths :
      (keys : List ℕ) (seen rows : List Row)
      → All (λ k. length k ≡ length keys) seen
      → All (λ k. length k ≡ length keys) (keys_of keys seen rows)
  unfolding keys_of add_key
  keys_of-lengths keys seen [] h = h
  keys_of-lengths keys seen (r ∷ rows) h = elim (Bool-cases (contains_key seen (row_key keys r))) [
    | inl e ↦ rw e (keys_of-lengths keys seen rows h)
    | inr e ↦ rw e (
        keys_of-lengths keys (seen ++ row_key keys r ∷ []) rows
          (All-snoc (λ k. length k ≡ length keys) seen (row_key keys r) h (length-row_key keys r)))
  ]

module _ ⦃ext : External⦄ ⦃arrow : Arrow⦄ ⦃hashing : Hashing⦄ ⦃floats : Floats⦄
    ⦃conversions : Conversions⦄ where
  -- The aggregates of a plan.
  abbrev pub aggregates : AggregateExec → List AggregateExpr
  aggregates plan = map (λ a. a.aggregate) plan.aggr_expr

  -- The row of a group, by the results of its aggregates.
  unfoldable pub group_rows : (result : Row → Row) → List Row → List Row
  group_rows result ks = map (λ k. k ++ result k) ks

  -- An aggregation by columns, of columns, over batches of the input's kinds with these rows, whose
  -- accumulators give a result for every group, of the types of its schema.
  pub record Groups (plan : AggregateExec) (ks outs : List Kind) (keys cols : List ℕ)
      (batches : List arrow.RecordBatch) (rows : List Row) (result : Row → Row) : Type 0 where
    pub groups : plan.group_expr ≡ map evaluate_column keys
    pub inputs : map (λ a. a.input_expression) plan.aggr_expr ≡ map evaluate_column cols
    pub keys_in_range : All (λ k. k < length ks) keys
    pub cols_in_range : All (λ k. k < length ks) cols
    pub runs : plan.input.execute 0 ≡ ok (map ok batches)
    pub batches_of : Inputs ks batches rows
    pub results :
        (key : Row)
        → (group_of plan.mode (aggregates plan) keys cols key rows >>= λ accs.
            traverse (output plan.mode) accs)
          ≡ ok (result key)
    pub writes : Writes plan.schema outs
    pub fits : All (λ k. Fits outs (k ++ result k)) (keys_of keys [] rows)

  length-evaluate_column :
      (plan : AggregateExec) (keys : List ℕ)
      → plan.group_expr ≡ map evaluate_column keys
      → length plan.group_expr ≡ length keys
  length-evaluate_column plan keys h = ap length h ∙ length-map evaluate_column keys

  -- A finished table is written as one row for each entry, in the order of the map.
  output_batch-rows :
      (plan : AggregateExec) (keys : List ℕ) (outs : List Kind) (result : Row → Row)
      (table : GroupTable)
      → Writes plan.schema outs
      → length plan.group_expr ≡ length keys
      → All
          (λ e. (length e.0 ≡ length keys) × (traverse (output plan.mode) e.1 ≡ ok (result e.0)))
          table
      → All (λ e. Fits outs (e.0 ++ result e.0)) table
      → (b : arrow.RecordBatch) × (out_rows : List Row) × (output_batch plan table ≡ ok b)
        × (read_rows b ≡ ok out_rows)
        × Perm out_rows (group_rows result (map (λ e. e.0) table))
  unfolding output_batch create_batch group_rows
  output_batch-rows plan keys outs result table w n entries fits =
      let row = λ (e : Row × List Accumulator). e.0 ++ result e.0 in
      let p = hashing.iterate-perm table in
      let (b, e, reads) =
        read_rows-create_batch (map row (hashing.iterate table)) plan.schema outs w
          (All-map_image row (Fits outs) (hashing.iterate table) (All-Permᴰ _ p fits)) in
      (
        b,
        map row (hashing.iterate table),
        bind-ext (traverse (λ f. new_builder (ext.data_type f)) (ext.fields plan.schema)) _ _
              (λ new.
                ap (λ m. m >>= λ builders. create plan.schema (map build builders))
                  (rw n (
                    append_groups-rows plan.mode (length keys) result (hashing.iterate table) new
                      (All-Permᴰ _ p entries))))
            ∙ e,
        reads,
        subst (Perm (map row (hashing.iterate table)))
            (sym (map-map_lem (λ (e : Row × List Accumulator). e.0) (λ k. k ++ result k) table))
            ∣ Permᴰ-map row p ∣₁,
      )

  -- A group of the table has the result of its key.
  Held-results :
      (plan : AggregateExec) (keys cols : List ℕ) (rows : List Row) (result : Row → Row)
      (table : GroupTable)
      → ((key : Row)
          → (group_of plan.mode (aggregates plan) keys cols key rows >>= λ accs.
              traverse (output plan.mode) accs)
            ≡ ok (result key))
      → Held plan.mode (aggregates plan) keys cols rows table
      → All (λ e. traverse (output plan.mode) e.1 ≡ ok (result e.0)) table
  Held-results plan keys cols rows result [] results held = tt
  Held-results plan keys cols rows result ((k, accs) ∷ table) results (here, held) = (
    sym (ap (λ m. m >>= λ accs. traverse (output plan.mode) accs) here) ∙ results k,
    Held-results plan keys cols rows result table results held,
  )

  -- An aggregation by columns, of columns, of an input that answers batches of rows of some types,
  -- whose accumulators give a result for each group, under an output schema of the types of the keys
  -- and results that has some fields, all nullable, answers one batch with one row for each key of
  -- its input's rows: the key and the results of the accumulators that were fed the rows with this
  -- key, in order. The rows of the batch are in some order.
  pub execute-group_rows :
      (plan : AggregateExec) (ks outs : List Kind) (keys cols : List ℕ)
      (batches : List arrow.RecordBatch) (rows : List Row) (result : Row → Row)
      → Groups plan ks outs keys cols batches rows result
      → (b : arrow.RecordBatch) × (out_rows : List Row) × (execute plan 0 ≡ ok (ok b ∷ []))
        × (read_rows b ≡ ok out_rows)
        × Perm out_rows (group_rows result (keys_of keys [] rows))
  unfolding execute yield_then matches filter
  execute-group_rows plan ks outs keys cols batches rows result g =
      let (table, folded, held, same) =
        fold_rows-Held plan.mode (aggregates plan) keys cols rows [] []
          (λ key.
            let (accs, e, rest) =
              bind-eq-ok (group_of plan.mode (aggregates plan) keys cols key rows)
                (λ accs. traverse (output plan.mode) accs) (g.results key) in
            (accs, e))
          tt tt (λ key h. refl) in
      let lengths =
        All-map_inv (λ (e : Row × List Accumulator). e.0) (λ k. length k ≡ length keys) table
          (subst (All (λ k. length k ≡ length keys)) (sym same)
            (keys_of-lengths keys [] rows tt)) in
      let fits =
        All-map_inv (λ (e : Row × List Accumulator). e.0) (λ k. Fits outs (k ++ result k)) table
          (subst (All (λ k. Fits outs (k ++ result k))) (sym same) g.fits) in
      let (b, out_rows, made, reads, p) =
        output_batch-rows plan keys outs result table g.writes
          (length-evaluate_column plan keys g.groups)
          (All-both _ _ table lengths
            (Held-results plan keys cols rows result table g.results held))
          fits in
      (
        b,
        out_rows,
        rw
            (
              g.runs,
              group_all-fold plan ks keys cols g.groups g.inputs g.keys_in_range g.cols_in_range
                  batches rows [] g.batches_of,
              folded,
              made,
            )
            refl,
        reads,
        subst (λ ks. Perm out_rows (group_rows result ks)) same p,
      )
