-- ===== src/Rows/RoundTrip.antt =====
-- Batches made from rows and read again (fdapquery-physical-plan/src/hash_join_exec.rs).
use fdapquery.Base.{
  ℕ, suc, ◌+◌, ◌≡◌, ◌≢◌, refl, sym, ap, subst, true, some, List, [], ◌∷◌, map, length, get_elem?,
  All, arith, ◌∙◌,
}
use fdapquery.External.{External}
use fdapquery.Arrow.{Kind, Arrow}
use fdapquery.Errors.{ok, from_arrow}
use fdapquery.Rows.{Row, create, create_batch, full_row, columns_of, rows_from, read_rows}
use fdapquery.Rows.Write.{Fits, Typed, create_batch-columns}

module _ ⦃ext : External⦄ ⦃arrow : Arrow⦄ where
  rows_from-lem :
      (batch : arrow.RecordBatch) (start : ℕ) (rows : List Row)
      → ((i : ℕ) (r : Row)
          → get_elem? rows i ≡ some r
          → full_row (columns_of batch) (start + i) ≡ ok r)
      → rows_from batch start (length rows) ≡ ok rows
  unfolding rows_from
  rows_from-lem batch start [] read = refl
  rows_from-lem batch start (r ∷ rows) read =
      let first : full_row (columns_of batch) start ≡ ok r =
        subst (λ i. full_row (columns_of batch) i ≡ ok r) (omega arith) (read 0 r refl) in
      let others = rows_from-lem batch (start + 1) rows λ i r' at.
        subst (λ j. full_row (columns_of batch) j ≡ ok r') (omega arith) (read (suc i) r' at) in
      rw (first, others) refl

  all-eq :
      (m n : ℕ) (cs : List arrow.ArrayRef)
      → cs ≢ []
      → All (λ c. arrow.array_len c ≡ m) cs
      → All (λ c. arrow.array_len c ≡ n) cs
      → m ≡ n
  all-eq m n [] ne hm hn = absurd (ne refl)
  all-eq m n (c ∷ cs) ne hm hn = sym hm.0 ∙ hn.0

  no_fields :
      (fs : List ext.Field) (cs : List arrow.ArrayRef)
      → map arrow.array_type cs ≡ map ext.data_type fs
      → cs ≡ []
      → fs ≡ []
  no_fields [] cs types e = refl
  no_fields (f ∷ fs) [] types e = cc
  no_fields (f ∷ fs) (c ∷ cs) types e = cc

  -- The schemas that batches are written under: some fields, each nullable and of a supported type.
  pub record Writes (schema : ext.Schema) (ks : List Kind) : Type 0 where
    pub typed : Typed (ext.fields schema) ks
    pub some_field : ext.fields schema ≢ []
    pub nullable : All (λ f. arrow.is_nullable f ≡ true) (ext.fields schema)

  -- A batch of columns of one length reads as what the columns read, row by row.
  pub read_rows-create :
      (rows : List Row) (schema : ext.Schema) (ks : List Kind) (cs : List arrow.ArrayRef)
      → Writes schema ks
      → All (λ c. arrow.array_len c ≡ length rows) cs
      → map arrow.array_type cs ≡ map ext.data_type (ext.fields schema)
      → ((i : ℕ) (r : Row) → get_elem? rows i ≡ some r → full_row cs i ≡ ok r)
      → (b : arrow.RecordBatch) × (create schema cs ≡ ok b)
        × (read_rows b ≡ ok rows)
        × (columns_of b ≡ cs)
  unfolding create read_rows
  read_rows-create rows schema ks cs w lens types read =
      let ne : cs ≢ [] = λ e. w.some_field (no_fields (ext.fields schema) cs types e) in
      let (b, accepted) = arrow.try_new-accepts schema cs (length rows) ne types lens w.nullable in
      let (same, counts) = arrow.columns-try_new schema cs b accepted in
      (
        b,
        ap from_arrow accepted,
        rw (all-eq (arrow.num_rows b) (length rows) cs ne counts lens) (
            rows_from-lem b 0 rows (λ i r at.
              subst (λ j. full_row (columns_of b) j ≡ ok r) (omega arith)
                (subst (λ cols. full_row cols i ≡ ok r) (sym same) (read i r at)))),
        same,
      )

  -- Rows of nulls and values of the types of a schema, which has some fields, all nullable, are
  -- written to a batch that reads as those rows.
  pub read_rows-create_batch :
      (rows : List Row) (schema : ext.Schema) (ks : List Kind)
      → Writes schema ks
      → All (Fits ks) rows
      → (b : arrow.RecordBatch) × (create_batch rows schema ≡ ok b) × (read_rows b ≡ ok rows)
  read_rows-create_batch rows schema ks w fs =
      let (cs, made, lens, types, read) = create_batch-columns rows schema ks w.typed fs in
      let (b, e, reads, same) = read_rows-create rows schema ks cs w lens types read in
      (b, made ∙ e, reads)
