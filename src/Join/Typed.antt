-- ===== src/Join/Typed.antt =====
-- The types of the rows that a hash join (fdapquery-physical-plan/src/hash_join_exec.rs) makes.
use mathlib.Core.List.{Permᴰ}
use fdapquery.Base.{
  ℕ, suc, ◌+◌, ◌<◌, ◌≡◌, refl, sym, ap, subst, Bool, none, List, [], ◌∷◌, ◌++◌, map, length, All,
  All-map, filter, is_empty, inl, inr, Bool-cases, arith,
}
use fdapquery.External.{External}
use fdapquery.Arrow.{Kind}
use fdapquery.Plan.{JoinType}
use fdapquery.Scalar.{ScalarValue}
use fdapquery.Scalar.Arrays.{replicate, cell_of}
use fdapquery.Rows.{Row}
use fdapquery.Rows.Read.{foldl, row_key, HasKey}
use fdapquery.Rows.Write.{Fits, nil, cons, Typed}
use fdapquery.RowKey.{Hashing, row_eq}
use fdapquery.Join.HashTable.{
  Table, contains_index, kept, combine_rows, insert_row, add_rows, matches, contains_key,
}
use fdapquery.Join.Nested.{flat, nested_row, nested_loop}
use fdapquery.Join.Unmatched.{entry_rows}

pub All-append {ℓ κ} :
    {A : Type ℓ} (P : A → Type κ) (xs ys : List A) → All P xs → All P ys → All P (xs ++ ys)
All-append P [] ys hx hy = hy
All-append P (x ∷ xs) ys hx hy = (hx.0, All-append P xs ys hx.1 hy)

All-kept {ℓ κ} :
    {A : Type ℓ} (P : A → Type κ) (p : A → Bool) (xs : List A) → All P xs → All P (filter p xs)
unfolding filter
All-kept P p [] h = tt
All-kept P p (x ∷ xs) (q, h) = elim (Bool-cases (p x)) [
  | inl t ↦ rw t (q, All-kept P p xs h)
  | inr t ↦ rw t (All-kept P p xs h)
]

All-image {ℓ κ κ'} :
    {A : Type ℓ} {B : Type κ} (P : B → Type κ') (f : A → B) (xs : List A)
    → All (λ x. P (f x)) xs
    → All P (map f xs)
All-image P f [] h = tt
All-image P f (x ∷ xs) (q, h) = (q, All-image P f xs h)

All-flat {ℓ κ κ'} :
    {A : Type ℓ} {B : Type κ} (P : B → Type κ') (f : A → List B) (xs : List A)
    → All (λ x. All P (f x)) xs
    → All P (flat f xs)
unfolding flat
All-flat P f [] h = tt
All-flat P f (x ∷ xs) (q, h) = All-append P (f x) (flat f xs) q (All-flat P f xs h)

pub All-Permᴰ {ℓ κ} :
    {A : Type ℓ} (P : A → Type κ) {xs ys : List A} → Permᴰ xs ys → All P ys → All P xs
All-Permᴰ P Permᴰ.nil h = tt
All-Permᴰ P (Permᴰ.cons e p) (q, h) = (subst P (sym e) q, All-Permᴰ P p h)
All-Permᴰ P (Permᴰ.swap e e') (q, (q', h)) = (subst P (sym e) q', (subst P (sym e') q, h))
All-Permᴰ P (Permᴰ.trans p p') h = All-Permᴰ P p (All-Permᴰ P p' h)

module _ ⦃ext : External⦄ where
  pub length-Fits : {ks : List Kind} {r : Row} → Fits ks r → length r ≡ length ks
  length-Fits nil = refl
  length-Fits (cons o f) = ap suc (length-Fits f)

  pub HasKey-Fits :
      (keys : List ℕ) (ks : List Kind) (r : Row)
      → All (λ k. k < length ks) keys
      → Fits ks r
      → HasKey keys r
  HasKey-Fits [] ks r h f = tt
  HasKey-Fits (k ∷ keys) ks r (lt, h) f = (omega (arith, length-Fits f), HasKey-Fits keys ks r h f)

  Fits-append :
      {ks ks' : List Kind} {r r' : Row} → Fits ks r → Fits ks' r' → Fits (ks ++ ks') (r ++ r')
  Fits-append nil g = g
  Fits-append (cons o f) g = cons o (Fits-append f g)

  Fits-kept :
      (excluded : List ℕ) (i : ℕ) (ks : List Kind) (r : Row)
      → Fits ks r
      → Fits (kept excluded i ks) (kept excluded i r)
  unfolding kept
  Fits-kept excluded i [] r nil = nil
  Fits-kept excluded i (k ∷ ks) r (cons {row = row} o f) =
      elim (Bool-cases (contains_index excluded i)) [
        | inl t ↦ rw t (Fits-kept excluded (i + 1) ks row f)
        | inr t ↦ rw t (cons o (Fits-kept excluded (i + 1) ks row f))
      ]

  pub Fits-combine_rows :
      (excluded : List ℕ) {ks ks' : List Kind} {l r : Row}
      → Fits ks l
      → Fits ks' r
      → Fits (ks ++ kept excluded 0 ks') (combine_rows l r excluded)
  unfolding combine_rows
  Fits-combine_rows excluded {ks' = ks'} {r = r} f g = Fits-append f (Fits-kept excluded 0 ks' r g)

  pub Fits-replicate : (ks : List Kind) → Fits ks (replicate (length ks) ScalarValue.null)
  unfolding replicate cell_of
  Fits-replicate [] = nil
  Fits-replicate (k ∷ ks) = cons none (Fits-replicate ks)

  pub length-Typed : (fs : List ext.Field) (ks : List Kind) → Typed fs ks → length fs ≡ length ks
  length-Typed [] [] t = refl
  length-Typed [] (k ∷ ks) t = elim t [ ]
  length-Typed (f ∷ fs) [] t = elim t [ ]
  length-Typed (f ∷ fs) (k ∷ ks) (e, t) = ap suc (length-Typed fs ks t)

module _ ⦃ext : External⦄ ⦃hashing : Hashing⦄ (excluded : List ℕ) (lks rks : List Kind) where
  abbrev Out : Row → Type 0
  Out = Fits (lks ++ kept excluded 0 rks)

  abbrev alone : JoinType → Row → List Row
  alone jt l = elim jt [
    | JoinType.left ↦ combine_rows l (replicate (length rks) ScalarValue.null) excluded ∷ []
    | _ ↦ []
  ]

  alone-Fits : (jt : JoinType) (l : Row) → Fits lks l → All Out (alone jt l)
  alone-Fits JoinType.left l f = (Fits-combine_rows excluded f (Fits-replicate rks), tt)
  alone-Fits _ l f = tt

  partners-Fits :
      (keys : List ℕ) (key : Row) (rights : List Row)
      → All (Fits rks) rights
      → All (Fits rks) (matches keys key rights)
  unfolding matches
  partners-Fits keys key rights rs =
      All-kept (Fits rks) (λ r. row_eq (row_key keys r) key) rights rs

  nested_row-Fits :
      (left_keys right_keys : List ℕ) (jt : JoinType) (rights : List Row) (l : Row)
      → All (Fits rks) rights
      → Fits lks l
      → All Out (nested_row excluded left_keys right_keys (length rks) jt rights l)
  unfolding nested_row
  nested_row-Fits left_keys right_keys jt rights l rs f =
      elim (Bool-cases (is_empty (matches right_keys (row_key left_keys l) rights))) [
        | inl e ↦ rw e (alone-Fits jt l f)
        | inr e ↦ rw e (
            All-image Out (λ r. combine_rows l r excluded)
              (matches right_keys (row_key left_keys l) rights)
              (All-map (matches right_keys (row_key left_keys l) rights)
                (λ r g. Fits-combine_rows excluded f g)
                (partners-Fits right_keys (row_key left_keys l) rights rs)))
      ]

  pub nested_loop-Fits :
      (left_keys right_keys : List ℕ) (jt : JoinType) (lefts rights : List Row)
      → All (Fits lks) lefts
      → All (Fits rks) rights
      → All Out (nested_loop excluded left_keys right_keys (length rks) jt lefts rights)
  unfolding nested_loop
  nested_loop-Fits left_keys right_keys jt lefts rights ls rs =
      All-flat Out (nested_row excluded left_keys right_keys (length rks) jt rights) lefts
        (All-map lefts (λ l f. nested_row-Fits left_keys right_keys jt rights l rs f) ls)

  -- The rows of every entry of a table.
  abbrev Held : Table → Type 0
  Held = All (λ (entry : Row × List Row). All (Fits rks) entry.1)

  Held-insert_row :
      (key r : Row) (table : Table) → Fits rks r → Held table → Held (insert_row key r table)
  unfolding insert_row
  Held-insert_row key r [] f h = ((f, tt), tt)
  Held-insert_row key r ((k, rows) ∷ table) f (here, h) = elim (Bool-cases (row_eq k key)) [
    | inl e ↦ rw e (All-append (Fits rks) rows (r ∷ []) here (f, tt), h)
    | inr e ↦ rw e (here, Held-insert_row key r table f h)
  ]

  pub Held-add_rows :
      (keys : List ℕ) (rows : List Row) (table : Table)
      → All (Fits rks) rows
      → Held table
      → Held (add_rows keys table rows)
  unfolding add_rows foldl
  Held-add_rows keys [] table fs h = h
  Held-add_rows keys (r ∷ rows) table (f, fs) h =
      Held-add_rows keys rows (insert_row (row_key keys r) r table) fs
        (Held-insert_row (row_key keys r) r table f h)

  entry-Fits :
      (keys : List ℕ) (matched : List Row) (null_left : Row)
      → Fits lks null_left
      → (entry : Row × List Row) → All (Fits rks) entry.1
      → All Out (entry_rows keys matched (λ r. combine_rows null_left r excluded) entry)
  unfolding entry_rows
  entry-Fits keys matched null_left n (key, rows) h = elim (Bool-cases (contains_key matched key)) [
    | inl e ↦ rw e tt
    | inr e ↦ rw e (
        All-image Out (λ r. combine_rows null_left r excluded) rows
          (All-map rows (λ r g. Fits-combine_rows excluded n g) h))
  ]

  pub entries-Fits :
      (keys : List ℕ) (matched : List Row) (null_left : Row) (table : Table)
      → Fits lks null_left
      → Held table
      → All Out (
          flat
            (entry_rows keys matched (λ r. combine_rows null_left r excluded))
            (hashing.iterate table))
  unfolding entry_rows
  entries-Fits keys matched null_left table n h =
      All-flat Out (entry_rows keys matched (λ r. combine_rows null_left r excluded))
        (hashing.iterate table)
        (All-map (hashing.iterate table) (λ entry g. entry-Fits keys matched null_left n entry g)
          (All-Permᴰ (λ entry. All (Fits rks) entry.1) (hashing.iterate-perm table) h))
