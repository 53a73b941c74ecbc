-- ===== src/Shuffle/Pick.antt =====
-- The batch of the rows that are taken (fdapquery-physical-plan/src/shuffle_writer_exec.rs,
-- `select_rows`).
use fdapquery.Base.{
  ℕ, ◌≡◌, refl, sym, ap, ◌∙◌, subst, Bool, some, List, [], ◌∷◌, map, length, get_elem?, All,
}
use fdapquery.External.{External}
use fdapquery.Arrow.{Kind, type_of, Arrow}
use fdapquery.Errors.{ok, traverse}
use fdapquery.Rows.{Row, full_row, columns_of, read_rows}
use fdapquery.Rows.RoundTrip.{Writes, read_rows-create}
use fdapquery.Rows.Write.{Typed}
use fdapquery.Shuffle.{select_column, select_rows}
use fdapquery.Shuffle.Select.{
  pick, pick-map, length-map, get_elem?-map, head_of, tail_of, RowsFrom, RowsFrom-split,
  read_rows-RowsFrom, select_column-reads,
}

some-injective {ℓ} : {A : Type ℓ} {x y : A} → some x ≡ some y → x ≡ y
some-injective h = cc

get_elem?-pick-map {ℓ κ} :
    {A : Type ℓ} {B : Type κ} (f : A → B) (take : List Bool) (xs : List A) (i : ℕ) (x : A)
    → get_elem? (pick take xs) i ≡ some x
    → get_elem? (pick take (map f xs)) i ≡ some (f x)
get_elem?-pick-map f take xs i x h = rw (pick-map f take xs) (get_elem?-map f (pick take xs) i x h)

-- A function that changes no element changes none that is taken.
get_elem?-pick_fixed {ℓ} :
    {A : Type ℓ} (f : A → A) (take : List Bool) (xs : List A) (i : ℕ) (x : A)
    → map f xs ≡ xs
    → get_elem? (pick take xs) i ≡ some x
    → f x ≡ x
get_elem?-pick_fixed f take xs i x same h =
    some-injective
      (sym (get_elem?-pick-map f take xs i x h) ∙ ap (λ ys. get_elem? (pick take ys) i) same ∙ h)

length-pick-map {ℓ κ} :
    {A : Type ℓ} {B : Type κ} (f : A → B) (take : List Bool) (xs : List A)
    → length (pick take (map f xs)) ≡ length (pick take xs)
length-pick-map f take xs = ap length (pick-map f take xs) ∙ length-map f (pick take xs)

module _ ⦃ext : External⦄ ⦃arrow : Arrow⦄ where
  -- The arrays are of the kinds.
  abbrev pub OfKinds : List Kind → List arrow.ArrayRef → Type 0
  OfKinds ks cs = map arrow.array_type cs ≡ map type_of ks

  -- What the columns of the taken rows are.
  record Taken (cs : List arrow.ArrayRef) (take : List Bool) (rows : List Row) : Type 0 where
    outs : List arrow.ArrayRef
    done : traverse (select_column take) cs ≡ ok outs
    lens : All (λ c. arrow.array_len c ≡ length (pick take rows)) outs
    types : map arrow.array_type outs ≡ map arrow.array_type cs
    reads : (i : ℕ) (r : Row) → get_elem? (pick take rows) i ≡ some r → full_row outs i ≡ ok r

  no_column-nil : {row : ℕ} {rows : List Row} → RowsFrom [] row rows → map (λ r. []) rows ≡ rows
  unfolding full_row traverse
  no_column-nil RowsFrom.nil = refl
  no_column-nil (RowsFrom.cons {r = []} h hs) = ap (λ rows. [] ∷ rows) (no_column-nil hs)
  no_column-nil (RowsFrom.cons {r = v ∷ r} h hs) = cc

  OfKinds-split :
      (k : Kind) (c : arrow.ArrayRef) (ks : List Kind) (cs : List arrow.ArrayRef)
      → OfKinds (k ∷ ks) (c ∷ cs)
      → (arrow.array_type c ≡ type_of k) × OfKinds ks cs
  OfKinds-split k c ks cs of = (cc, cc)

  columns-Taken :
      (ks : List Kind) (cs : List arrow.ArrayRef) (take : List Bool) (rows : List Row)
      → OfKinds ks cs
      → RowsFrom cs 0 rows
      → length take ≡ length rows
      → Taken cs take rows
  unfolding full_row traverse
  columns-Taken ks [] take rows of hs l = record {
    outs = [];
    done = refl;
    lens = tt;
    types = refl;
    reads = λ i r at. ap ok (get_elem?-pick_fixed (λ r. []) take rows i r (no_column-nil hs) at);
  }
  columns-Taken [] (c ∷ cs) take rows of hs l = cc
  columns-Taken (k ∷ ks) (c ∷ cs) take rows of hs l =
      let (is, of') = OfKinds-split k c ks cs of in
      let (cells, rests, wholes) = RowsFrom-split c cs hs in
      let rest =
        columns-Taken ks cs take (map tail_of rows) of' rests (l ∙ sym (length-map tail_of rows)) in
      let (out, done, len, type, reads) =
        select_column-reads c k take (map head_of rows) is cells
          (l ∙ sym (length-map head_of rows)) in
      record {
        outs = out ∷ rest.outs;
        done = rw (done, rest.done) refl;
        lens = (
          len ∙ length-pick-map head_of take rows,
          subst (λ n. All (λ c. arrow.array_len c ≡ n) rest.outs)
              (length-pick-map tail_of take rows) rest.lens,
        );
        types = rw (type, rest.types) refl;
        reads = λ i r at.
            rw
              (
                reads i (head_of r) (get_elem?-pick-map head_of take rows i r at),
                rest.reads i (tail_of r) (get_elem?-pick-map tail_of take rows i r at),
              )
              (ap ok (get_elem?-pick_fixed (λ r. head_of r ∷ tail_of r) take rows i r wholes at));
      }

  Typed-types :
      (fs : List ext.Field) (ks : List Kind) → Typed fs ks → map ext.data_type fs ≡ map type_of ks
  Typed-types [] [] t = refl
  Typed-types [] (k ∷ ks) t = elim t [ ]
  Typed-types (f ∷ fs) [] t = elim t [ ]
  Typed-types (f ∷ fs) (k ∷ ks) (e, t) = rw (e, Typed-types fs ks t) refl

  -- The rows that are taken from a batch are those that the new batch reads.
  pub select_rows-pick :
      (ks : List Kind) (batch : arrow.RecordBatch) (schema : ext.Schema) (take : List Bool)
      (rows : List Row)
      → Writes schema ks
      → OfKinds ks (columns_of batch)
      → read_rows batch ≡ ok rows
      → length take ≡ length rows
      → (b : arrow.RecordBatch) × (select_rows batch schema take ≡ ok b)
        × (read_rows b ≡ ok (pick take rows))
        × OfKinds ks (columns_of b)
  unfolding select_rows
  select_rows-pick ks batch schema take rows w of reads l =
      let t =
        columns-Taken ks (columns_of batch) take rows of (read_rows-RowsFrom batch rows reads) l in
      let types = t.types ∙ of ∙ sym (Typed-types (ext.fields schema) ks w.typed) in
      let (b, e, read, same) =
        read_rows-create (pick take rows) schema ks t.outs w t.lens types t.reads in
      (b, rw t.done e, read, ap (map arrow.array_type) same ∙ t.types ∙ of)
