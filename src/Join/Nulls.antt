-- ===== src/Join/Nulls.antt =====
-- Null keys in fdapquery-physical-plan/src/hash_join_exec.rs, and `null_equality`.
use mathlib.Core.List.{append-nil}
use mathlib.Core.List.Perm
use fdapquery.Base.{ℕ, ◌≡◌, refl, subst, List, [], ◌∷◌, length, All, filter, sym, ◌∙◌}
use fdapquery.External.{External}
use fdapquery.Arrow.{Kind, Arrow}
use fdapquery.Errors.{ok}
use fdapquery.Plan.{JoinType}
use fdapquery.Scalar.{ScalarValue}
use fdapquery.Rows.{Row}
use fdapquery.Rows.Read.{row_key}
use fdapquery.RowKey.{Hashing}
use fdapquery.RowKey.Laws.{row_eq_iff}
use fdapquery.Join.HashTable.{combine_rows, matches}
use fdapquery.Join.Nested.{flat, nested_row, nested_loop, StreamRows}
use fdapquery.Join.Correct.{Ready, right_alone, execute-nested_loop}
use fdapquery.Join.{Stream, HashJoinExec, NullEquality, is_implemented, execute}

module _ ⦃ext : External⦄ ⦃arrow : Arrow⦄ ⦃hashing : Hashing⦄ where
  nested_loop-pair :
      (excluded lk rk : List ℕ) (width : ℕ) (l r : Row)
      → row_key lk l ≡ row_key rk r
      → nested_loop excluded lk rk width JoinType.inner (l ∷ []) (r ∷ [])
        ≡ combine_rows l r excluded ∷ []
  unfolding nested_loop nested_row flat matches filter
  nested_loop-pair excluded lk rk width l r e =
      rw ((row_eq_iff (row_key rk r) (row_key lk l)).1 (sym e)) refl

  -- An inner join told that nulls equal nothing joins two rows whose keys are all null.
  pub execute-null_keys :
      (plan : HashJoinExec) (lks rks : List Kind) (lk rk : List ℕ) (l r key : Row)
      → Ready plan lks rks lk rk (l ∷ []) (r ∷ [])
      → plan.join_type ≡ JoinType.inner
      → plan.null_equality ≡ NullEquality.null_equals_nothing
      → row_key lk l ≡ key
      → row_key rk r ≡ key
      → All (λ v. v ≡ ScalarValue.null) key
      → (out : Stream) × (execute plan 0 ≡ ok out)
        × StreamRows out (combine_rows l r plan.right_columns_to_exclude ∷ [])
  unfolding is_implemented right_alone
  execute-null_keys plan lks rks lk rk l r key ready inner told el er nulls =
      let (out, last, runs, rows, p) =
        execute-nested_loop plan lks rks lk rk (l ∷ []) (r ∷ []) ready (rw inner refl) in
      let empty : last ≡ [] = Perm.eq-nil (rw inner at p) in
      (
        out,
        runs,
        subst (StreamRows out)
            (rw
              (
                empty,
                inner,
                append-nil (combine_rows l r plan.right_columns_to_exclude ∷ []),
                nested_loop-pair plan.right_columns_to_exclude lk rk (length rks) l r (el ∙ sym er),
              )
              refl)
            rows,
      )
