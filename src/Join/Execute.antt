-- ===== src/Join/Execute.antt =====
-- Executing a hash join (fdapquery-physical-plan/src/hash_join_exec.rs).
use mathlib.Core.List.{append_assoc}
use fdapquery.Base.{
  ℕ, ◌≡◌, refl, ap, ◌∙◌, none, List, [], ◌∷◌, ◌++◌, map, All, inl, inr, Bool-cases, is_empty,
  if◌then◌else◌,
}
use fdapquery.External.{External}
use fdapquery.Arrow.{Kind, Arrow}
use fdapquery.Errors.{ok}
use fdapquery.Plan.{JoinType}
use fdapquery.Scalar.{ScalarValue}
use fdapquery.Scalar.Arrays.{replicate}
use fdapquery.Rows.{Row, read_rows}
use fdapquery.Rows.Read.{foldl, row_key, HasKey, for_batch-foldl}
use fdapquery.Rows.Write.{Fits}
use fdapquery.Rows.RoundTrip.{Writes}
use fdapquery.RowKey.{Hashing}
use fdapquery.Join.HashTable.{
  Table, combine_rows, matches, insert_row, get_rows, add_rows, contains_key, found,
  get_rows-add_rows,
}
use fdapquery.Join.Nested.{
  flat, flat-append, foldl-flat, foldl-append, All-append_split, nested_row, StreamRows, nil, cons,
  yield_rows-StreamRows,
}
use fdapquery.Join.Unmatched.{match_step, entry_rows}
use fdapquery.Join.{
  Stream, HashJoinExec, build_row, build_batch, build_table, joined, width_of, probe_row,
  probe_batch, match_keys, match_row, unmatched, probe,
}

module _ ⦃ext : External⦄ ⦃arrow : Arrow⦄ ⦃hashing : Hashing⦄ where
  build_batch-add_rows :
      (keys : List ℕ) (batch : arrow.RecordBatch) (rows : List Row) (table : Table)
      → read_rows batch ≡ ok rows
      → All (HasKey keys) rows
      → build_batch keys batch table ≡ ok (add_rows keys table rows)
  unfolding build_batch add_rows build_row
  build_batch-add_rows keys batch rows table read ks =
      for_batch-foldl keys batch (λ t r. insert_row (row_key keys r) r t) (build_row keys batch)
        rows table (λ row t r full key. rw (key, full) refl) read ks

  pub build_table-add_rows :
      (keys : List ℕ) {s : Stream} {rows : List Row} (table : Table)
      → StreamRows s rows
      → All (HasKey keys) rows
      → build_table keys s table ≡ ok (add_rows keys table rows)
  unfolding build_table add_rows foldl
  build_table-add_rows keys table nil ks = refl
  build_table-add_rows keys table (cons {b} {s} {rs} {rest} read h e) ks =
      let (here, later) = All-append_split (HasKey keys) rs rest (rw e at ks) in
      rw
        (
          e,
          build_batch-add_rows keys b rs table read here,
          build_table-add_rows keys (add_rows keys table rs) h later,
          foldl-append (λ t r. insert_row (row_key keys r) r t) table rs rest,
        )
        refl

  joined-found :
      (jt : JoinType) (width : ℕ) (excluded : List ℕ) (l : Row) (ms : List Row)
      → joined jt width excluded l (found none ms) ≡ (
          if is_empty ms
          then elim jt [
            | JoinType.left ↦ combine_rows l (replicate width ScalarValue.null) excluded ∷ []
            | _ ↦ []
          ]
          else map (λ r. combine_rows l r excluded) ms)
  unfolding joined found
  joined-found JoinType.left width excluded l [] = refl
  joined-found jt width excluded l [] = refl
  joined-found jt width excluded l (m ∷ ms) = refl

  module _ (plan : HashJoinExec) (left_keys : List ℕ) (table : Table) where
    abbrev pub row_joined : Row → List Row
    row_joined l =
        joined plan.join_type (width_of plan.right) plan.right_columns_to_exclude l
          (get_rows (row_key left_keys l) table)

    probe_batch-flat :
        (batch : arrow.RecordBatch) (rows : List Row)
        → read_rows batch ≡ ok rows
        → All (HasKey left_keys) rows
        → probe_batch plan left_keys table batch ≡ ok (flat row_joined rows)
    unfolding probe_batch probe_row
    probe_batch-flat batch rows read ks =
        for_batch-foldl left_keys batch (λ out l. out ++ row_joined l)
          (probe_row plan left_keys table batch) rows [] (λ row out l full key. rw (key, full) refl)
          read ks
        ∙ ap ok (foldl-flat row_joined [] rows)

    pub probe-StreamRows :
        (kinds : List Kind) {s after : Stream} {lefts last : List Row}
        → Writes plan.join_schema kinds
        → StreamRows s lefts
        → All (HasKey left_keys) lefts
        → All (Fits kinds) (flat row_joined lefts)
        → StreamRows after last
        → StreamRows (probe plan left_keys table s after) (flat row_joined lefts ++ last)
    unfolding probe flat
    probe-StreamRows kinds w nil ks fs a = a
    probe-StreamRows kinds w (cons {b} {s} {rs} {rest} read h e) ks fs a =
        let (here, later) = All-append_split (HasKey left_keys) rs rest (rw e at ks) in
        let (fits, fits') =
          All-append_split (Fits kinds) (flat row_joined rs) (flat row_joined rest)
            (rw (e, flat-append row_joined rs rest) at fs) in
        rw
          (
            e,
            flat-append row_joined rs rest,
            append_assoc (flat row_joined rs) (flat row_joined rest) _,
            probe_batch-flat b rs read here,
          )
          (yield_rows-StreamRows plan.join_schema kinds (flat row_joined rs) _ _ w fits
            (probe-StreamRows kinds w h later fits' a))

    -- The second pass gathers the keys of the left rows.
    pub match_keys-foldl :
        {s : Stream} {lefts : List Row} (matched : List Row)
        → StreamRows s lefts
        → All (HasKey left_keys) lefts
        → match_keys plan left_keys table s matched
          ≡ ok (foldl (match_step left_keys table) matched lefts)
    unfolding match_keys match_row match_step foldl
    match_keys-foldl matched nil ks = refl
    match_keys-foldl matched (cons {b} {s} {rs} {rest} read h e) ks =
        let (here, later) = All-append_split (HasKey left_keys) rs rest (rw e at ks) in
        let first =
          for_batch-foldl left_keys b (match_step left_keys table)
            (match_row plan left_keys table b) rs matched (λ row m l full key. rw key refl) read
            here in
        rw
          (
            e,
            first,
            match_keys-foldl (foldl (match_step left_keys table) matched rs) h later,
            foldl-append (match_step left_keys table) matched rs rest,
          )
          refl

    -- The rows that the loop over the table makes.
    pub unmatched-flat :
        (keys : List ℕ) (matched : List Row) (entries : Table)
        → unmatched plan left_keys table matched entries
          ≡ flat
              (entry_rows keys matched (λ r.
                combine_rows
                  (replicate (width_of plan.left) ScalarValue.null)
                  r
                  plan.right_columns_to_exclude))
              entries
    unfolding unmatched flat entry_rows
    unmatched-flat keys matched [] = refl
    unmatched-flat keys matched ((k, rows) ∷ entries) = elim (Bool-cases (contains_key matched k)) [
      | inl e ↦ rw (e, unmatched-flat keys matched entries) refl
      | inr e ↦ rw (e, unmatched-flat keys matched entries) refl
    ]

    -- What a key's rows in the table are joined to is what the nested loop makes of them.
    pub joined-nested_row :
        (right_keys : List ℕ) (rights : List Row) (l : Row)
        → table ≡ add_rows right_keys [] rights
        → row_joined l
          ≡ nested_row plan.right_columns_to_exclude left_keys right_keys
              (width_of plan.right)
              plan.join_type
              rights
              l
    unfolding nested_row get_rows
    joined-nested_row right_keys rights l e =
        rw (e, get_rows-add_rows right_keys (row_key left_keys l) [] rights)
          (joined-found plan.join_type (width_of plan.right) plan.right_columns_to_exclude l
            (matches right_keys (row_key left_keys l) rights))
