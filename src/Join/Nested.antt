-- ===== src/Join/Nested.antt =====
-- The nested loop that a join (fdapquery-physical-plan/src/hash_join_exec.rs) is compared with, and
-- the rows of a stream.
use fdapquery.Base.{
  ℕ, ◌≡◌, refl, sym, ap, ◌∙◌, subst, List, [], ◌∷◌, ◌++◌, map, All, is_empty, if◌then◌else◌,
}
use mathlib.Core.List.{append_assoc, append-nil}
use fdapquery.External.{External}
use fdapquery.Arrow.{Kind, Arrow}
use fdapquery.Errors.{ok}
use fdapquery.Plan.{JoinType}
use fdapquery.Scalar.{ScalarValue}
use fdapquery.Scalar.Arrays.{replicate}
use fdapquery.Rows.{Row, read_rows}
use fdapquery.Rows.Read.{foldl}
use fdapquery.Rows.Write.{Fits}
use fdapquery.Rows.RoundTrip.{Writes, read_rows-create_batch}
use fdapquery.RowKey.{Hashing}
use fdapquery.Rows.Read.{row_key}
use fdapquery.Join.HashTable.{combine_rows, matches}
use fdapquery.Join.{Stream, yield_rows, yield_then}

-- The results of a function at each element, one after another.
unfoldable pub flat {ℓ κ} : {A : Type ℓ} {B : Type κ} → (A → List B) → List A → List B
flat f [] = []
flat f (x ∷ xs) = f x ++ flat f xs

pub flat-append {ℓ κ} :
    {A : Type ℓ} {B : Type κ} (f : A → List B) (xs ys : List A)
    → flat f (xs ++ ys) ≡ flat f xs ++ flat f ys
unfolding flat
flat-append f [] ys = refl
flat-append f (x ∷ xs) ys =
    ap (λ zs. f x ++ zs) (flat-append f xs ys) ∙ sym (append_assoc (f x) (flat f xs) (flat f ys))

pub foldl-flat {ℓ κ} :
    {A : Type ℓ} {B : Type κ} (f : A → List B) (out : List B) (xs : List A)
    → foldl (λ out x. out ++ f x) out xs ≡ out ++ flat f xs
unfolding foldl flat
foldl-flat f out [] = sym (append-nil out)
foldl-flat f out (x ∷ xs) = foldl-flat f (out ++ f x) xs ∙ append_assoc out (f x) (flat f xs)

pub foldl-append {ℓ κ} :
    {A : Type ℓ} {S : Type κ} (step : S → A → S) (s : S) (xs ys : List A)
    → foldl step s (xs ++ ys) ≡ foldl step (foldl step s xs) ys
unfolding foldl
foldl-append step s [] ys = refl
foldl-append step s (x ∷ xs) ys = foldl-append step (step s x) xs ys

pub All-append_split {ℓ κ} :
    {A : Type ℓ} (P : A → Type κ) (xs ys : List A) → All P (xs ++ ys) → All P xs × All P ys
All-append_split P [] ys h = (tt, h)
All-append_split P (x ∷ xs) ys (p, h) = let (a, b) = All-append_split P xs ys h in ((p, a), b)

module _ ⦃ext : External⦄ ⦃hashing : Hashing⦄ where
  module _ (excluded left_keys right_keys : List ℕ) (right_width : ℕ) where
    -- A left row with each right row whose key is its own; a left join pads a row that has none.
    unfoldable pub nested_row : JoinType → List Row → Row → List Row
    nested_row jt rights left =
        let partners = matches right_keys (row_key left_keys left) rights in
        let padded = combine_rows left (replicate right_width ScalarValue.null) excluded ∷ [] in
        let alone : List Row = elim jt [ JoinType.left ↦ padded | _ ↦ [] ] in
        if is_empty partners then alone else map (λ r. combine_rows left r excluded) partners

    unfoldable pub nested_loop : JoinType → (lefts rights : List Row) → List Row
    unfolding nested_row
    nested_loop jt lefts rights = flat (nested_row jt rights) lefts

module _ ⦃ext : External⦄ ⦃arrow : Arrow⦄ where
  -- A stream without a failure, and its rows.
  pub data StreamRows : Stream → List Row → Type 0 where
    nil : StreamRows [] []
    cons :
        {b : arrow.RecordBatch} {s : Stream} {rs rest rows : List Row}
        → read_rows b ≡ ok rs
        → StreamRows s rest
        → rows ≡ rs ++ rest
        → StreamRows (ok b ∷ s) rows

  -- Rows that fit are yielded as they are.
  pub yield_rows-StreamRows :
      (schema : ext.Schema) (ks : List Kind) (rows rest : List Row) (s : Stream)
      → Writes schema ks
      → All (Fits ks) rows
      → StreamRows s rest
      → StreamRows (yield_rows (ok rows) schema s) (rows ++ rest)
  unfolding yield_rows yield_then
  yield_rows-StreamRows schema ks [] rest s w fs h = h
  yield_rows-StreamRows schema ks (r ∷ rows) rest s w fs h =
      let (b, made, read) = read_rows-create_batch (r ∷ rows) schema ks w fs in
      subst (λ o. StreamRows (yield_then o s) ((r ∷ rows) ++ rest)) (sym made) (cons read h refl)
