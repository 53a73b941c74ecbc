-- ===== src/Rows/Write.antt =====
-- Batches made from rows (fdapquery-physical-plan/src/hash_join_exec.rs, `create_batch`).
use fdapquery.Base.{
  ℕ, zero, suc, ◌+◌, ◌<◌, ◌≡◌, refl, sym, ap, subst, Option, some, List, [], ◌∷◌, ◌++◌, map, length,
  get_elem?, All, arith, length-append, ◌∙◌,
}
use fdapquery.External.{External}
use fdapquery.Arrow.{Kind, Native, type_of, Arrow}
use fdapquery.Errors.{ok, traverse}
use fdapquery.Scalar.Arrays.{cell_of, try_from_array-finish}
use fdapquery.Scalar.Builder.{ArrowVectorBuilder, push, append_value-cell_of, build, new_builder}
use fdapquery.Rows.{Row, append_row, append_rows, full_row, create, create_batch}

pub get_elem?-snoc {ℓ} :
    {A : Type ℓ} (xs : List A) (x : A) → get_elem? (xs ++ x ∷ []) (length xs) ≡ some x
get_elem?-snoc [] x = refl
get_elem?-snoc (y ∷ xs) x = get_elem?-snoc xs x

some-injective {ℓ} : {A : Type ℓ} {x y : A} → some x ≡ some y → x ≡ y
some-injective h = cc

pub get_elem?-lt {ℓ} :
    {A : Type ℓ} (xs : List A) (i : ℕ) {x : A} → get_elem? xs i ≡ some x → i < length xs
get_elem?-lt [] i h = cc
get_elem?-lt (y ∷ xs) zero h = omega arith
get_elem?-lt (y ∷ xs) (suc i) h = omega (arith, get_elem?-lt xs i h)

pub get_elem?-append_left {ℓ} :
    {A : Type ℓ} (xs ys : List A) (i : ℕ) → i < length xs → get_elem? (xs ++ ys) i ≡ get_elem? xs i
get_elem?-append_left [] ys i h = absurd (omega arith)
get_elem?-append_left (x ∷ xs) ys zero h = refl
get_elem?-append_left (x ∷ xs) ys (suc i) h = get_elem?-append_left xs ys i (omega arith)

module _ ⦃ext : External⦄ where
  abbrev pub kinds : List ArrowVectorBuilder → List Kind
  kinds [] = []
  kinds (b ∷ bs) = b.kind ∷ kinds bs

  -- A row with a null, or a value of the kind, for each kind.
  pub data Fits : List Kind → Row → Type 0 where
    nil : Fits [] []
    cons :
        {k : Kind} {ks : List Kind} {row : Row} (o : Option (Native k))
        → Fits ks row
        → Fits (k ∷ ks) (cell_of k o ∷ row)

  -- The fields' types are those of the kinds.
  abbrev pub Typed : List ext.Field → List Kind → Type 0
  Typed [] [] = Unit
  Typed [] (k ∷ ks) = ⊥
  Typed (f ∷ fs) [] = ⊥
  Typed (f ∷ fs) (k ∷ ks) = (ext.data_type f ≡ type_of k) × Typed fs ks

  -- What stands at a position of every builder's column.
  data Cells (i : ℕ) : List ArrowVectorBuilder → Row → Type 0 where
    nil : Cells i [] []
    cons :
        {b : ArrowVectorBuilder} {bs : List ArrowVectorBuilder} {row : Row}
        (o : Option (Native b.kind))
        → get_elem? b.values i ≡ some o
        → Cells i bs row
        → Cells i (b ∷ bs) (cell_of b.kind o ∷ row)

  -- Every column has so many cells.
  abbrev Have : ℕ → List ArrowVectorBuilder → Type 0
  Have n bs = All (λ b. length b.values ≡ n) bs

  -- The builders after a row that fits.
  pushed :
      (bs : List ArrowVectorBuilder) {row : Row} → Fits (kinds bs) row → List ArrowVectorBuilder
  pushed [] f = []
  pushed (b ∷ bs) (cons o f) = push b o ∷ pushed bs f

  append_row-pushed :
      (bs : List ArrowVectorBuilder) {row : Row} (f : Fits (kinds bs) row)
      → append_row bs row ≡ ok (pushed bs f)
  unfolding append_row pushed
  append_row-pushed [] nil = refl
  append_row-pushed (b ∷ bs) (cons o f) = rw (append_value-cell_of b o, append_row-pushed bs f) refl

  kinds-pushed :
      (bs : List ArrowVectorBuilder) {row : Row} (f : Fits (kinds bs) row)
      → kinds (pushed bs f) ≡ kinds bs
  unfolding pushed
  kinds-pushed [] nil = refl
  kinds-pushed (b ∷ bs) (cons o f) = ap (λ ks. b.kind ∷ ks) (kinds-pushed bs f)

  Have-pushed :
      (n : ℕ) (bs : List ArrowVectorBuilder) {row : Row} (f : Fits (kinds bs) row)
      → Have n bs
      → Have (suc n) (pushed bs f)
  unfolding pushed
  Have-pushed n [] nil h = tt
  Have-pushed n (b ∷ bs) (cons o f) (l, h) =
      (length-append b.values (o ∷ []) ∙ omega (arith, l), Have-pushed n bs f h)

  Cells-pushed_new :
      (n : ℕ) (bs : List ArrowVectorBuilder) {row : Row} (f : Fits (kinds bs) row)
      → Have n bs
      → Cells n (pushed bs f) row
  unfolding pushed
  Cells-pushed_new n [] nil h = nil
  Cells-pushed_new n (b ∷ bs) (cons o f) (l, h) =
      cons o (rw (← l) (get_elem?-snoc b.values o)) (Cells-pushed_new n bs f h)

  Cells-pushed_old :
      (n i : ℕ) (bs : List ArrowVectorBuilder) {row r : Row} (f : Fits (kinds bs) row)
      → Have n bs
      → i < n
      → Cells i bs r
      → Cells i (pushed bs f) r
  unfolding pushed
  Cells-pushed_old n i [] nil h lt nil = nil
  Cells-pushed_old n i (b ∷ bs) (cons o f) (l, h) lt (cons o' at cs) =
      cons o' (get_elem?-append_left b.values (o ∷ []) i (rw l lt) ∙ at)
        (Cells-pushed_old n i bs f h lt cs)

  -- The builders after rows that fit: their columns hold the rows, below what they held.
  record Appended (ks : List Kind) (n : ℕ) (bs : List ArrowVectorBuilder) (rows : List Row)
      : Type 0 where
    after : List ArrowVectorBuilder
    done : append_rows bs rows ≡ ok after
    same : kinds after ≡ ks
    have : Have (n + length rows) after
    old : (i : ℕ) (r : Row) → i < n → Cells i bs r → Cells i after r
    fresh : (i : ℕ) (r : Row) → get_elem? rows i ≡ some r → Cells (n + i) after r

  fresh-cons :
      (n : ℕ) (after : List ArrowVectorBuilder) (row : Row) (rows : List Row)
      → Cells n after row
      → ((i : ℕ) (r : Row) → get_elem? rows i ≡ some r → Cells (suc n + i) after r)
      → (i : ℕ) (r : Row) → get_elem? (row ∷ rows) i ≡ some r
      → Cells (n + i) after r
  fresh-cons n after row rows c cs zero r at =
      subst (λ r. Cells (n + 0) after r) (some-injective at)
        (subst (λ m. Cells m after row) (omega arith) c)
  fresh-cons n after row rows c cs (suc i) r at =
      subst (λ m. Cells m after r) (omega arith) (cs i r at)

  append_rows-Appended :
      (ks : List Kind) (n : ℕ) (bs : List ArrowVectorBuilder) (rows : List Row)
      → kinds bs ≡ ks
      → Have n bs
      → All (Fits ks) rows
      → Appended ks n bs rows
  unfolding append_rows
  append_rows-Appended ks n bs [] e h fs = record {
    after = bs;
    done = refl;
    same = e;
    have = subst (λ m. Have m bs) (omega arith) h;
    old = λ i r lt c. c;
    fresh = λ i r at. cc;
  }
  append_rows-Appended ks n bs (row ∷ rows) e h (f, fs) =
      let f' = subst (λ ks. Fits ks row) (sym e) f in
      let rest =
        append_rows-Appended ks (suc n) (pushed bs f') rows (kinds-pushed bs f' ∙ e)
          (Have-pushed n bs f' h) fs in
      record {
        after = rest.after;
        done = rw (append_row-pushed bs f') rest.done;
        same = rest.same;
        have = subst (λ m. Have m rest.after) (omega arith) rest.have;
        old = λ i r lt c. rest.old i r (omega arith) (Cells-pushed_old n i bs f' h lt c);
        fresh =
            fresh-cons n rest.after row rows
              (rest.old n row (omega arith) (Cells-pushed_new n bs f' h)) rest.fresh;
      }

module _ ⦃ext : External⦄ ⦃arrow : Arrow⦄ where
  -- A row of cells is what the built columns read.
  Cells-full_row :
      (i : ℕ) (bs : List ArrowVectorBuilder) (r : Row)
      → Cells i bs r
      → full_row (map build bs) i ≡ ok r
  unfolding full_row traverse build
  Cells-full_row i [] r nil = refl
  Cells-full_row i (b ∷ bs) r (cons {row = row} o at cs) =
      rw
        (
          try_from_array-finish b.kind b.values i o (get_elem?-lt b.values i at) at,
          Cells-full_row i bs row cs,
        )
        refl

  empty_builders : List Kind → List ArrowVectorBuilder
  empty_builders [] = []
  empty_builders (k ∷ ks) = record { kind = k; values = [] } ∷ empty_builders ks

  kinds-empty_builders : (ks : List Kind) → kinds (empty_builders ks) ≡ ks
  unfolding empty_builders
  kinds-empty_builders [] = refl
  kinds-empty_builders (k ∷ ks) = ap (λ ks. k ∷ ks) (kinds-empty_builders ks)

  Have-empty_builders : (ks : List Kind) → Have 0 (empty_builders ks)
  unfolding empty_builders
  Have-empty_builders [] = tt
  Have-empty_builders (k ∷ ks) = (refl, Have-empty_builders ks)

  new_builder-type_of : (k : Kind) → new_builder (type_of k) ≡ ok (record { kind = k; values = [] })
  unfolding new_builder
  new_builder-type_of k = rw (arrow.kind_of-type_of k, new_builder) refl

  new_builders :
      (fs : List ext.Field) (ks : List Kind)
      → Typed fs ks
      → traverse (λ f. new_builder (ext.data_type f)) fs ≡ ok (empty_builders ks)
  unfolding traverse empty_builders
  new_builders [] [] t = refl
  new_builders [] (k ∷ ks) t = elim t [ ]
  new_builders (f ∷ fs) [] t = elim t [ ]
  new_builders (f ∷ fs) (k ∷ ks) (e, t) = rw (e, new_builder-type_of k, new_builders fs ks t) refl

  Have-build :
      (n : ℕ) (bs : List ArrowVectorBuilder)
      → Have n bs
      → All (λ c. arrow.array_len c ≡ n) (map build bs)
  unfolding build
  Have-build n [] h = tt
  Have-build n (b ∷ bs) (l, h) = (arrow.array_len-finish b.kind b.values ∙ l, Have-build n bs h)

  types-build :
      (fs : List ext.Field) (bs : List ArrowVectorBuilder)
      → Typed fs (kinds bs)
      → map arrow.array_type (map build bs) ≡ map ext.data_type fs
  unfolding build
  types-build [] [] t = refl
  types-build [] (b ∷ bs) t = elim t [ ]
  types-build (f ∷ fs) [] t = elim t [ ]
  types-build (f ∷ fs) (b ∷ bs) (e, t) =
      rw (arrow.array_type-finish b.kind b.values, e, types-build fs bs t) refl

  -- `create_batch` makes columns that read as its rows, and hands them to arrow.
  pub create_batch-columns :
      (rows : List Row) (schema : ext.Schema) (ks : List Kind)
      → Typed (ext.fields schema) ks
      → All (Fits ks) rows
      → (cs : List arrow.ArrayRef) × (create_batch rows schema ≡ create schema cs)
        × All (λ c. arrow.array_len c ≡ length rows) cs
        × (map arrow.array_type cs ≡ map ext.data_type (ext.fields schema))
        × ((i : ℕ) (r : Row) → get_elem? rows i ≡ some r → full_row cs i ≡ ok r)
  unfolding create_batch
  create_batch-columns rows schema ks t fs =
      let a =
        append_rows-Appended ks 0 (empty_builders ks) rows (kinds-empty_builders ks)
          (Have-empty_builders ks) fs in
      (
        map build a.after,
        rw (new_builders (ext.fields schema) ks t, a.done) refl,
        Have-build (length rows) a.after (subst (λ m. Have m a.after) (omega arith) a.have),
        types-build (ext.fields schema) a.after (subst (Typed (ext.fields schema)) (sym a.same) t),
        λ i r at.
            Cells-full_row i a.after r
              (subst (λ m. Cells m a.after r) (omega arith) (a.fresh i r at)),
      )
