-- ===== src/Join/Correct.antt =====
-- A hash join (fdapquery-physical-plan/src/hash_join_exec.rs) beside a nested loop.
use mathlib.Core.List.{append-nil, Perm}
use mathlib.Core.List.Perm
use mathlib.Core.Path.{fun_ext}
use fdapquery.Base.{
  ℕ, ◌<◌, ◌≡◌, refl, sym, ap, ◌∙◌, subst, true, false, not, none, some, List, [], ◌∷◌, ◌++◌, map,
  length, All, All-map, is_empty, filter,
}
use fdapquery.External.{External}
use fdapquery.Arrow.{Kind, Arrow}
use fdapquery.Errors.{ok}
use fdapquery.Plan.{JoinType}
use fdapquery.Scalar.{ScalarValue}
use fdapquery.Scalar.Arrays.{replicate}
use fdapquery.Rows.{Row}
use fdapquery.Rows.Read.{foldl, row_key, HasKey}
use fdapquery.Rows.Write.{Fits, Typed}
use fdapquery.Rows.RoundTrip.{Writes}
use fdapquery.RowKey.{Hashing}
use fdapquery.Join.HashTable.{
  Table, kept, combine_rows, matches, get_rows, add_rows, found, get_rows-add_rows, contains_key,
}
use fdapquery.Join.Nested.{flat, nested_loop, StreamRows, nil, yield_rows-StreamRows}
use fdapquery.Join.Typed.{
  HasKey-Fits, Fits-replicate, length-Typed, nested_loop-Fits, Held-add_rows, entries-Fits,
}
use fdapquery.Join.Unmatched.{
  match_step, entry_rows, entry_rows-add_rows, row_rows-filter, contains_key-foldl, matches_self,
  flat-Perm,
}
use fdapquery.Join.Execute.{
  build_table-add_rows, probe-StreamRows, joined-nested_row, row_joined, match_keys-foldl,
  unmatched-flat,
}
use fdapquery.Join.{
  Stream, HashJoinExec, width_of, unmatched_rows, after_probe, run_probe, join_keys, join_stream,
  is_implemented, execute, yield_rows,
}

module _ ⦃ext : External⦄ ⦃arrow : Arrow⦄ ⦃hashing : Hashing⦄ where
  -- A join of two inputs that answer with rows of their schemas' types, by keys that are columns of
  -- these, under a schema of the combined types that has some fields, all nullable.
  pub record Ready (plan : HashJoinExec) (left_kinds right_kinds : List Kind)
      (left_keys right_keys : List ℕ) (lefts rights : List Row) : Type 0 where
    pub keys : join_keys plan.on ≡ ok (left_keys, right_keys)
    pub left_stream : Stream
    pub left_runs : plan.left.execute 0 ≡ ok left_stream
    pub left_rows : StreamRows left_stream lefts
    pub left_typed : Typed (ext.fields plan.left.schema) left_kinds
    pub left_fits : All (Fits left_kinds) lefts
    pub left_in_range : All (λ k. k < length left_kinds) left_keys
    pub right_stream : Stream
    pub right_runs : plan.right.execute 0 ≡ ok right_stream
    pub right_rows : StreamRows right_stream rights
    pub right_typed : Typed (ext.fields plan.right.schema) right_kinds
    pub right_fits : All (Fits right_kinds) rights
    pub right_in_range : All (λ k. k < length right_kinds) right_keys
    pub writes :
        Writes plan.join_schema (left_kinds ++ kept plan.right_columns_to_exclude 0 right_kinds)

  -- The right rows whose key no left row has, padded on the left.
  unfoldable pub right_alone :
      (excluded left_keys right_keys : List ℕ) (left_width : ℕ)
      → JoinType
      → (lefts rights : List Row) → List Row
  right_alone excluded left_keys right_keys width JoinType.right lefts rights =
      map (λ r. combine_rows (replicate width ScalarValue.null) r excluded)
        (filter (λ r. is_empty (matches left_keys (row_key right_keys r) lefts)) rights)
  right_alone excluded left_keys right_keys width _ lefts rights = []

  found-some :
      (ms : List Row) → is_empty ms ≡ false → (rows : List Row) × (found none ms ≡ some rows)
  unfolding found
  found-some [] h = cc
  found-some (m ∷ ms) h = (m ∷ ms, refl)

  module _ (plan : HashJoinExec) (lks rks : List Kind) (lk rk : List ℕ) (lefts rights : List Row)
      (ready : Ready plan lks rks lk rk lefts rights) where
    abbrev table : Table
    table = add_rows rk [] rights

    abbrev null_left : Row
    null_left = replicate (width_of plan.left) ScalarValue.null

    abbrev matched : List Row
    matched = foldl (match_step lk table) [] lefts

    left_have_keys : All (HasKey lk) lefts
    left_have_keys =
        All-map lefts (λ r f. HasKey-Fits lk lks r ready.left_in_range f) ready.left_fits

    right_have_keys : All (HasKey rk) rights
    right_have_keys =
        All-map rights (λ r f. HasKey-Fits rk rks r ready.right_in_range f) ready.right_fits

    null_left-Fits : Fits lks null_left
    null_left-Fits =
        subst (λ n. Fits lks (replicate n ScalarValue.null))
          (sym (length-Typed (ext.fields plan.left.schema) lks ready.left_typed))
          (Fits-replicate lks)

    -- The rows that the second pass yields.
    abbrev last_rows : List Row
    last_rows =
        flat (entry_rows rk matched (λ r. combine_rows null_left r plan.right_columns_to_exclude))
          (hashing.iterate table)

    unmatched_rows-last_rows : unmatched_rows plan lk table ≡ ok last_rows
    unfolding unmatched_rows
    unmatched_rows-last_rows =
        rw
          (
            ready.left_runs,
            match_keys-foldl plan lk table [] ready.left_rows left_have_keys,
            unmatched-flat plan lk table rk matched (hashing.iterate table),
          )
          refl

    in_table :
        (key : Row)
        → is_empty (matches rk key rights) ≡ false
        → (rows : List Row) × (get_rows key table ≡ some rows)
    unfolding get_rows
    in_table key h =
        let (rows, e) = found-some (matches rk key rights) h in
        (rows, get_rows-add_rows rk key [] rights ∙ e)

    -- A right row's key is gathered exactly if some left row has it.
    matched_iff :
        (r : Row)
        → is_empty (matches rk (row_key rk r) rights) ≡ false
        → contains_key matched (row_key rk r) ≡ not (is_empty (matches lk (row_key rk r) lefts))
    unfolding contains_key
    matched_iff r h =
        let (rows, e) = in_table (row_key rk r) h in
        contains_key-foldl lk table (row_key rk r) e [] lefts

    last_rows-Perm : Perm last_rows (
        right_alone plan.right_columns_to_exclude lk rk
          (width_of plan.left)
          JoinType.right
          lefts
          rights)
    unfolding right_alone flat
    last_rows-Perm =
        let pad = λ (r : Row). combine_rows null_left r plan.right_columns_to_exclude in
        Perm.trans (flat-Perm (entry_rows rk matched pad) ∣ hashing.iterate-perm table ∣₁) (
          subst (Perm (flat (entry_rows rk matched pad) table))
            (row_rows-filter rk matched pad (λ r. is_empty (matches lk (row_key rk r) lefts)) rights
              (All-map rights matched_iff (matches_self rk rights)))
            (entry_rows-add_rows rk matched pad [] rights))

    -- What is yielded after the left input.
    after_probe-StreamRows :
        (jt : JoinType)
        → (last : List Row) × StreamRows (after_probe plan lk table jt) last
          × Perm last
              (right_alone plan.right_columns_to_exclude lk rk (width_of plan.left) jt lefts rights)
    unfolding after_probe right_alone
    after_probe-StreamRows JoinType.right =
        let fits =
          entries-Fits plan.right_columns_to_exclude lks rks rk matched null_left table
            null_left-Fits
            (Held-add_rows plan.right_columns_to_exclude lks rks rk rights [] ready.right_fits
              tt) in
        (
          last_rows,
          rw unmatched_rows-last_rows (
              subst (StreamRows (yield_rows (ok last_rows) plan.join_schema []))
                (append-nil last_rows)
                (yield_rows-StreamRows plan.join_schema
                  (lks ++ kept plan.right_columns_to_exclude 0 rks) last_rows [] [] ready.writes
                  fits nil)),
          last_rows-Perm,
        )
    after_probe-StreamRows _ = ([], nil, Perm.refl [])

    -- The rows of the first pass.
    first_rows :
        flat (row_joined plan lk table) lefts
        ≡ nested_loop plan.right_columns_to_exclude lk rk (length rks) plan.join_type lefts rights
    unfolding nested_loop
    first_rows = rw (← length-Typed (ext.fields plan.right.schema) rks ready.right_typed) (
        ap (λ (f : Row → List Row). flat f lefts)
          (fun_ext (λ l. joined-nested_row plan lk table rk rights l refl)))

    -- An inner, left or right join by columns, of two inputs that answer rows of the types of their
    -- schemas, under an output schema of the types of the combined rows that has some fields, all
    -- nullable, answers. Its rows are those of the nested loop, then for a right join the right rows
    -- that no left row matched, padded with nulls, in some order.
    pub execute-nested_loop :
        is_implemented plan.join_type ≡ true
        → (out : Stream) × (last : List Row) × (execute plan 0 ≡ ok out)
          × StreamRows out (
              nested_loop plan.right_columns_to_exclude lk rk
                (length rks)
                plan.join_type
                lefts
                rights
              ++ last)
          × Perm last (
              right_alone plan.right_columns_to_exclude lk rk
                (length lks)
                plan.join_type
                lefts
                rights)
    unfolding execute join_stream run_probe
    execute-nested_loop impl =
        let (last, after, p) = after_probe-StreamRows plan.join_type in
        let fits =
          nested_loop-Fits plan.right_columns_to_exclude lks rks lk rk plan.join_type lefts rights
            ready.left_fits ready.right_fits in
        (
          join_stream plan lk rk,
          last,
          rw (impl, ready.keys) refl,
          rw
              (
                ready.right_runs,
                ready.left_runs,
                build_table-add_rows rk [] ready.right_rows right_have_keys,
                ← first_rows,
              )
              (probe-StreamRows plan lk table (lks ++ kept plan.right_columns_to_exclude 0 rks)
                ready.writes ready.left_rows left_have_keys (rw first_rows fits) after),
          rw (← length-Typed (ext.fields plan.left.schema) lks ready.left_typed) p,
        )
