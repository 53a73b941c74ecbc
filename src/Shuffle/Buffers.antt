-- ===== src/Shuffle/Buffers.antt =====
-- The buffers of the partitions (fdapquery-physical-plan/src/shuffle_writer_exec.rs).
use mathlib.Core.List.{append_assoc, append-nil}
use fdapquery.Base.{
  ℕ, zero, suc, ◌+◌, ◌<◌, ◌≡◌, refl, sym, ap, ◌∙◌, subst, pos, List, [], ◌∷◌, ◌++◌, map, ◌==◌,
  filter, length, All, inl, inr, Bool-cases,
}
use fdapquery.External.{External}
use fdapquery.Arrow.{Kind, type_of, Arrow}
use fdapquery.Errors.{Outcome, ok, ◌>>=◌, traverse, bind-eq-ok, ok-injective}
use fdapquery.Scalar.Arrays.{try_from_array}
use fdapquery.Rows.{Row, full_row, columns_of, read_rows}
use fdapquery.Rows.Read.{HasKey}
use fdapquery.Rows.RoundTrip.{Writes}
use fdapquery.RowKey.{Hashing}
use fdapquery.ColumnarValue.{evaluate_column}
use fdapquery.Join.Nested.{StreamRows}
use fdapquery.PhysicalPlanner.{as_usize}
use fdapquery.Shuffle.{ShuffleWriterExec, any_true, push_selected, key_columns, fill_buffers}
use fdapquery.Shuffle.Targets.{bucket, compute_targets-bucket}
use fdapquery.Shuffle.Select.{length-map, RowsFrom, read_rows-RowsFrom}
use fdapquery.Shuffle.Pick.{OfKinds, select_rows-pick}
use fdapquery.Shuffle.Parts.{parts, filter-append, pick-filter, any_true-filter}

module _ ⦃ext : External⦄ ⦃arrow : Arrow⦄ where
  pub StreamRows-append :
      {s t : List (Outcome arrow.RecordBatch)} {xs ys : List Row}
      → StreamRows s xs
      → StreamRows t ys
      → StreamRows (s ++ t) (xs ++ ys)
  StreamRows-append StreamRows.nil h = h
  StreamRows-append {ys = ys} (StreamRows.cons {rs = rs} {rest = rest} read more e) h =
      StreamRows.cons read (StreamRows-append more h)
        (ap (λ xs. xs ++ ys) e ∙ append_assoc rs rest ys)

  -- What the buffers hold.
  pub data Holds : List (List arrow.RecordBatch) → List (List Row) → Type 0 where
    nil : Holds [] []
    cons :
        {buffer : List arrow.RecordBatch} {buffers : List (List arrow.RecordBatch)}
        {rows : List Row} {rest : List (List Row)}
        → StreamRows (map ok buffer) rows
        → Holds buffers rest
        → Holds (buffer ∷ buffers) (rows ∷ rest)

  -- Batches of the kinds, and their rows.
  pub data Inputs (ks : List Kind) : List arrow.RecordBatch → List Row → Type 0 where
    nil : Inputs ks [] []
    cons :
        {batch : arrow.RecordBatch} {batches : List arrow.RecordBatch} {rows rest : List Row}
        → OfKinds ks (columns_of batch)
        → read_rows batch ≡ ok rows
        → Inputs ks batches rest
        → Inputs ks (batch ∷ batches) (rows ++ rest)

  map-append {ℓ κ} :
      {A : Type ℓ} {B : Type κ} (f : A → B) (xs ys : List A)
      → map f (xs ++ ys) ≡ map f xs ++ map f ys
  map-append f [] ys = refl
  map-append f (x ∷ xs) ys = ap (λ zs. f x ∷ zs) (map-append f xs ys)

  module _ (ks : List Kind) (schema : ext.Schema) (w : Writes schema ks) (g : Row → ℕ)
      (batch : arrow.RecordBatch) (rows : List Row) (of : OfKinds ks (columns_of batch))
      (read : read_rows batch ≡ ok rows) where
    map-tests :
        (part : ℕ) (xs : List Row) → map (λ t. t == part) (map g xs) ≡ map (λ r. g r == part) xs
    map-tests part [] = refl
    map-tests part (x ∷ xs) = ap (λ ts. (g x == part) ∷ ts) (map-tests part xs)

    -- The batch's rows of a partition are pushed to its buffer.
    push_selected-parts :
        (part count : ℕ) (buffers : List (List arrow.RecordBatch)) (old : List Row)
        → Holds buffers (parts g part count old)
        → (buffers' : List (List arrow.RecordBatch)) × (push_selected batch schema
              (map g rows)
              part
              buffers
            ≡ ok buffers')
          × Holds buffers' (parts g part count (old ++ rows))
    unfolding push_selected parts
    push_selected-parts part zero _ old nil = ([], refl, nil)
    push_selected-parts part (suc count) _ old
          (cons {buffer = buffer} {buffers = buffers} here there) =
        let q = λ (r : Row). g r == part in
        let (rest, e, holds) = push_selected-parts (part + 1) count buffers old there in
        elim (Bool-cases (any_true (map q rows))) [
          | inl some_row ↦
              let (b, made, reads, of') =
                select_rows-pick ks batch schema (map q rows) rows w of read (length-map q rows) in
              (
                (buffer ++ b ∷ []) ∷ rest,
                rw (map-tests part rows, some_row, made, e) refl,
                cons {buffer = buffer ++ b ∷ []} {rows = filter q (old ++ rows)}
                    (rw (map-append ok buffer (b ∷ []), filter-append q old rows)
                      (StreamRows-append here (
                        StreamRows.cons (reads ∙ ap ok (pick-filter q rows)) StreamRows.nil
                          (sym (append-nil (filter q rows))))))
                    holds,
              )
          | inr no_row ↦ (
            buffer ∷ rest,
            rw (map-tests part rows, no_row, e) refl,
            cons {buffer = buffer} {rows = filter q (old ++ rows)}
                (rw
                  (
                    filter-append q old rows,
                    any_true-filter q rows no_row,
                    append-nil (filter q old),
                  )
                  here)
                holds,
          )
        ]

  full_row-length :
      (cs : List arrow.ArrayRef) (row : ℕ) (r : Row) → full_row cs row ≡ ok r → length r ≡ length cs
  unfolding full_row traverse
  full_row-length [] row r h = ap length (sym (ok-injective h))
  full_row-length (c ∷ cs) row r h =
      let (v, hv, rest) =
        bind-eq-ok (try_from_array c row)
          (λ v. traverse (λ c. try_from_array c row) cs >>= λ vs. ok (v ∷ vs)) h in
      let (vs, hvs, e) =
        bind-eq-ok (traverse (λ c. try_from_array c row) cs) (λ vs. ok (v ∷ vs)) rest in
      ap length (sym (ok-injective e)) ∙ ap suc (full_row-length cs row vs hvs)

  pub RowsFrom-HasKey :
      (keys : List ℕ) (cs : List arrow.ArrayRef) {row : ℕ} {rows : List Row}
      → All (λ k. k < length cs) keys
      → RowsFrom cs row rows
      → All (HasKey keys) rows
  RowsFrom-HasKey keys cs inside RowsFrom.nil = tt
  RowsFrom-HasKey keys cs inside (RowsFrom.cons {row = row} {r = r} h hs) = (
    subst (λ n. All (λ k. k < n) keys) (sym (full_row-length cs row r h)) inside,
    RowsFrom-HasKey keys cs inside hs,
  )

  pub OfKinds-length :
      (ks : List Kind) (cs : List arrow.ArrayRef) → OfKinds ks cs → length cs ≡ length ks
  OfKinds-length ks cs of =
      sym (length-map arrow.array_type cs) ∙ ap length of ∙ length-map type_of ks

module _ ⦃ext : External⦄ ⦃arrow : Arrow⦄ ⦃hashing : Hashing⦄ (writer : ShuffleWriterExec) (n : ℕ)
    (keys : List ℕ) (ks : List Kind) (w : Writes writer.input.schema ks)
    (counts : writer.partition_count ≡ pos (suc n))
    (exprs : writer.partition_expr ≡ map evaluate_column keys)
    (in_range : All (λ k. k < length ks) keys) where
  -- The buffers hold the rows of each partition.
  pub fill_buffers-parts :
      (batches : List arrow.RecordBatch) (rows old : List Row)
      (buffers : List (List arrow.RecordBatch))
      → Inputs ks batches rows
      → Holds buffers (parts (bucket n keys) 0 (suc n) old)
      → (buffers' : List (List arrow.RecordBatch)) × (fill_buffers writer batches buffers
          ≡ ok buffers')
        × Holds buffers' (parts (bucket n keys) 0 (suc n) (old ++ rows))
  unfolding fill_buffers as_usize
  fill_buffers-parts [] _ old buffers nil holds = (
    buffers,
    refl,
    subst (λ xs. Holds buffers (parts (bucket n keys) 0 (suc n) xs)) (sym (append-nil old)) holds,
  )
  fill_buffers-parts (batch ∷ batches) _ old buffers (cons {rows = rows} {rest = rest} of read more)
        holds =
      let inside =
        subst (λ m. All (λ k. k < m) keys) (sym (OfKinds-length ks (columns_of batch) of))
          in_range in
      let have =
        RowsFrom-HasKey keys (columns_of batch) inside (read_rows-RowsFrom batch rows read) in
      let (cs, columns, targets) =
        bind-eq-ok (key_columns (map evaluate_column keys) batch) _
          (compute_targets-bucket n keys batch rows inside read have) in
      let (mid, pushed, held) =
        push_selected-parts ks writer.input.schema w (bucket n keys) batch rows of read 0 (suc n)
          buffers old holds in
      let (buffers', e, holds') = fill_buffers-parts batches rest (old ++ rows) mid more held in
      (
        buffers',
        rw (exprs, columns, counts, targets, pushed) e,
        subst (λ xs. Holds buffers' (parts (bucket n keys) 0 (suc n) xs))
            (append_assoc old rows rest) holds',
      )
