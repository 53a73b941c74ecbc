-- ===== src/Join/Unmatched.antt =====
-- The second pass of a right join (fdapquery-physical-plan/src/hash_join_exec.rs): the right rows
-- that no left row matched.
use mathlib.Core.List.{append_assoc, append-nil, Perm, Permᴰ}
use mathlib.Core.List.{Perm-prop, perm_append_comm}
use mathlib.Core.List.Perm
use mathlib.Core.List.Permᴰ
use mathlib.Core.Logic.{∥∥₁_elim}
use fdapquery.Base.{
  ℕ, ◌≡◌, refl, ap, ◌∙◌, Bool, false, not, ◌||◌, none, some, List, [], ◌∷◌, ◌++◌, map, All, All-map,
  is_empty, if◌then◌else◌, filter, inl, inr, Bool-cases, arith,
}
use fdapquery.External.{External}
use fdapquery.Rows.{Row}
use fdapquery.Rows.Read.{foldl, row_key}
use fdapquery.RowKey.{Hashing, row_eq}
use fdapquery.RowKey.Laws.{row_eq_iff}
use fdapquery.Join.HashTable.{Table, insert_row, get_rows, matches, add_rows, contains_key}
use fdapquery.Join.Nested.{flat}

flat-Permᴰ {ℓ κ} :
    {A : Type ℓ} {B : Type κ} (f : A → List B) {xs ys : List A}
    → Permᴰ xs ys
    → Permᴰ (flat f xs) (flat f ys)
unfolding flat
flat-Permᴰ f Permᴰ.nil = Permᴰ.refl []
flat-Permᴰ f (Permᴰ.cons {a} {b} {l₁} {l₂} e p) = rw e (Permᴰ.append_left (f b) (flat-Permᴰ f p))
flat-Permᴰ f (Permᴰ.swap {a} {b} {a'} {b'} {l} e e') =
    rw (e, e', ← append_assoc (f b') (f a') (flat f l), ← append_assoc (f a') (f b') (flat f l))
      (Permᴰ.append_right (flat f l) (Permᴰ.append_comm (f b') (f a')))
flat-Permᴰ f (Permᴰ.trans p q) = Permᴰ.trans (flat-Permᴰ f p) (flat-Permᴰ f q)

-- A reordering of the elements reorders the results.
pub flat-Perm {ℓ κ} :
    {A : Type ℓ} {B : Type κ} (f : A → List B) {xs ys : List A}
    → Perm xs ys
    → Perm (flat f xs) (flat f ys)
flat-Perm f p = ∥∥₁_elim p Perm-prop (λ d. ∣ flat-Permᴰ f d ∣₁)

middle-last {ℓ} : {A : Type ℓ} (xs ys zs : List A) → Perm ((xs ++ ys) ++ zs) ((xs ++ zs) ++ ys)
middle-last xs ys zs =
    rw (append_assoc xs ys zs, append_assoc xs zs ys) (Perm.append_left xs (perm_append_comm ys zs))

map-append_lem {ℓ κ} :
    {A : Type ℓ} {B : Type κ} (f : A → B) (xs ys : List A) → map f (xs ++ ys) ≡ map f xs ++ map f ys
map-append_lem f [] ys = refl
map-append_lem f (x ∷ xs) ys = ap (λ zs. f x ∷ zs) (map-append_lem f xs ys)

module _ ⦃ext : External⦄ ⦃hashing : Hashing⦄ (keys : List ℕ) (matched : List Row)
    (pad : Row → Row) where
  -- The padded rows of an entry, or of a row, whose key was not matched.
  unfoldable pub entry_rows : Row × List Row → List Row
  entry_rows (key, rows) = if contains_key matched key then [] else map pad rows

  unfoldable pub row_rows : Row → List Row
  row_rows r = if contains_key matched (row_key keys r) then [] else pad r ∷ []

  entry_rows-push :
      (key : Row) (rows : List Row) (r : Row)
      → key ≡ row_key keys r
      → entry_rows (key, rows ++ r ∷ []) ≡ entry_rows (key, rows) ++ row_rows r
  unfolding entry_rows row_rows
  entry_rows-push key rows r e = elim (Bool-cases (contains_key matched key)) [
    | inl m ↦ rw (← e, m) refl
    | inr m ↦ rw (← e, m) (map-append_lem pad rows (r ∷ []))
  ]

  entry_rows-one : (r : Row) → entry_rows (row_key keys r, r ∷ []) ≡ row_rows r
  unfolding entry_rows row_rows
  entry_rows-one r = refl

  entry_rows-insert_row :
      (r : Row) (table : Table)
      → Perm
          (flat entry_rows (insert_row (row_key keys r) r table))
          (flat entry_rows table ++ row_rows r)
  unfolding flat insert_row
  entry_rows-insert_row r [] =
      rw (append-nil (entry_rows (row_key keys r, r ∷ [])), entry_rows-one r) (Perm.refl _)
  entry_rows-insert_row r ((k, rows) ∷ table) = elim (Bool-cases (row_eq k (row_key keys r))) [
    | inl e ↦
        rw (e, entry_rows-push k rows r ((row_eq_iff k (row_key keys r)).0 e))
          (middle-last (entry_rows (k, rows)) (row_rows r) (flat entry_rows table))
    | inr e ↦
        rw (e, append_assoc (entry_rows (k, rows)) (flat entry_rows table) (row_rows r))
          (Perm.append_left (entry_rows (k, rows)) (entry_rows-insert_row r table))
  ]

  -- The rows of the entries are those of the rows added, in some order.
  pub entry_rows-add_rows :
      (table : Table) (rows : List Row)
      → Perm
          (flat entry_rows (add_rows keys table rows))
          (flat entry_rows table ++ flat row_rows rows)
  unfolding add_rows foldl flat
  entry_rows-add_rows table [] = rw (append-nil (flat entry_rows table)) (Perm.refl _)
  entry_rows-add_rows table (r ∷ rows) =
      Perm.trans (entry_rows-add_rows (insert_row (row_key keys r) r table) rows) (
        rw (← append_assoc (flat entry_rows table) (row_rows r) (flat row_rows rows))
          (Perm.append_right (flat row_rows rows) (entry_rows-insert_row r table)))

  -- Where a key is matched exactly if a test fails, the padded rows are those that pass the test.
  pub row_rows-filter :
      (test : Row → Bool) (rows : List Row)
      → All (λ r. contains_key matched (row_key keys r) ≡ not (test r)) rows
      → flat row_rows rows ≡ map pad (filter test rows)
  unfolding flat row_rows filter
  row_rows-filter test [] h = refl
  row_rows-filter test (r ∷ rows) (e, h) = elim (Bool-cases (test r)) [
    | inl t ↦ rw (e, t, row_rows-filter test rows h) refl
    | inr t ↦ rw (e, t, row_rows-filter test rows h) refl
  ]

module _ ⦃ext : External⦄ ⦃hashing : Hashing⦄ where
  module _ (keys : List ℕ) where
    -- A row's key finds that row at least.
    matches-weaken :
        (key r : Row) (rows : List Row)
        → is_empty (matches keys key rows) ≡ false
        → is_empty (matches keys key (r ∷ rows)) ≡ false
    unfolding matches filter
    matches-weaken key r rows h = ground (arith, h)

    matches-head :
        (r : Row) (rows : List Row) → is_empty (matches keys (row_key keys r) (r ∷ rows)) ≡ false
    unfolding matches filter
    matches-head r rows = rw ((row_eq_iff (row_key keys r) (row_key keys r)).1 refl) refl

    pub matches_self :
        (rows : List Row) → All (λ r. is_empty (matches keys (row_key keys r) rows) ≡ false) rows
    matches_self [] = tt
    matches_self (r ∷ rows) = (
      matches-head r rows,
      All-map rows (λ x h. matches-weaken (row_key keys x) r rows h) (matches_self rows),
    )

  -- The keys gathered in the second pass.
  module _ (left_keys : List ℕ) (table : Table) where
    unfoldable pub match_step : List Row → Row → List Row
    match_step matched l = elim (get_rows (row_key left_keys l) table) [
      | none ↦ matched
      | some rows ↦ row_key left_keys l ∷ matched
    ]

    contains_key-match_step :
        (key : Row) {rows : List Row}
        → get_rows key table ≡ some rows
        → (matched : List Row) (l : Row)
        → contains_key (match_step matched l) key
          ≡ (row_eq (row_key left_keys l) key || contains_key matched key)
    unfolding match_step contains_key
    contains_key-match_step key h matched l = ground (arith, row_eq_iff (row_key left_keys l) key)

    -- A key of the table is gathered exactly if some left row has it.
    pub contains_key-foldl :
        (key : Row) {rows : List Row}
        → get_rows key table ≡ some rows
        → (matched : List Row) (lefts : List Row)
        → contains_key (foldl match_step matched lefts) key
          ≡ (contains_key matched key || not (is_empty (matches left_keys key lefts)))
    unfolding foldl matches filter
    contains_key-foldl key h matched [] = ground arith
    contains_key-foldl key h matched (l ∷ lefts) =
        contains_key-foldl key h (match_step matched l) lefts
        ∙ ground (arith, contains_key-match_step key h matched l)
