-- ===== src/Aggregate/Output.antt =====
-- The rows that fdapquery-physical-plan/src/aggregate_exec.rs writes for its groups.
use fdapquery.Base.{ℕ, ◌≡◌, refl, sym, ap, ◌∙◌, subst, List, [], ◌∷◌, ◌++◌, map, length, All}
use mathlib.Core.List.{append-nil}
use fdapquery.External.{External}
use fdapquery.Errors.{ok, ◌>>=◌, traverse, bind-eq-ok, ok-injective}
use fdapquery.Scalar.Builder.{ArrowVectorBuilder, append_value}
use fdapquery.Rows.{Row, append_row, append_rows}
use fdapquery.Distributed.{AggregateMode}
use fdapquery.Accumulator.{Floats}
use fdapquery.Accumulator.Kinds.{Accumulator, Conversions}
use fdapquery.Aggregate.{GroupTable, output, append_outputs, append_group, append_groups}
use fdapquery.Aggregate.Fold.{bind_assoc, bind-ok, bind-ext}

module _ ⦃ext : External⦄ ⦃floats : Floats⦄ ⦃conversions : Conversions⦄ (mode : AggregateMode) where
  append_outputs-first :
      (accs : List Accumulator) (outs : Row) (bs : List ArrowVectorBuilder)
      → traverse (output mode) accs ≡ ok outs
      → append_outputs mode 0 bs accs ≡ append_row bs outs
  unfolding append_outputs append_row traverse
  append_outputs-first [] outs bs h = ap (append_row bs) (ok-injective h)
  append_outputs-first (acc ∷ accs) outs [] h =
      let (v, hv, rest) =
        bind-eq-ok (output mode acc) (λ v. traverse (output mode) accs >>= λ vs. ok (v ∷ vs)) h in
      let (vs, hvs, e) = bind-eq-ok (traverse (output mode) accs) (λ vs. ok (v ∷ vs)) rest in
      rw (hv, ← ok-injective e) refl
  append_outputs-first (acc ∷ accs) outs (b ∷ bs) h =
      let (v, hv, rest) =
        bind-eq-ok (output mode acc) (λ v. traverse (output mode) accs >>= λ vs. ok (v ∷ vs)) h in
      let (vs, hvs, e) = bind-eq-ok (traverse (output mode) accs) (λ vs. ok (v ∷ vs)) rest in
      rw (hv, ← ok-injective e)
        (bind-ext (append_value b v) _ _
          (λ b'. ap (λ m. m >>= λ bs'. ok (b' ∷ bs')) (append_outputs-first accs vs bs hvs)))

  -- A key and then the outputs are appended as one row.
  append_outputs-row :
      (key : Row) (accs : List Accumulator) (outs : Row) (bs : List ArrowVectorBuilder)
      → traverse (output mode) accs ≡ ok outs
      → (append_row bs key >>= λ bs'. append_outputs mode (length key) bs' accs)
        ≡ append_row bs (key ++ outs)
  unfolding append_outputs append_row traverse
  append_outputs-row [] accs outs bs h = append_outputs-first accs outs bs h
  append_outputs-row key [] outs bs h =
      bind-ok (append_row bs key)
      ∙ ap (append_row bs) (sym (append-nil key) ∙ ap (λ vs. key ++ vs) (ok-injective h))
  append_outputs-row (k ∷ key) (acc ∷ accs) outs [] h = refl
  append_outputs-row (k ∷ key) (acc ∷ accs) outs (b ∷ bs) h =
      let last =
        λ (bs' : List ArrowVectorBuilder). append_outputs mode (length key) bs' (acc ∷ accs) in
      let whole = λ (bs' : List ArrowVectorBuilder).
        append_outputs mode (length (k ∷ key)) bs' (acc ∷ accs) in
      bind_assoc (append_value b k) (λ b'. append_row bs key >>= λ bs'. ok (b' ∷ bs')) whole
      ∙ bind-ext (append_value b k) _ _ (λ b'.
        bind_assoc (append_row bs key) (λ bs'. ok (b' ∷ bs')) whole
        ∙ sym (bind_assoc (append_row bs key) last (λ bs'. ok (b' ∷ bs')))
        ∙ ap (λ m. m >>= λ bs'. ok (b' ∷ bs')) (append_outputs-row key (acc ∷ accs) outs bs h))

  -- The rows of the groups.
  pub append_groups-rows :
      (n : ℕ) (result : Row → Row) (entries : GroupTable) (bs : List ArrowVectorBuilder)
      → All (λ e. (length e.0 ≡ n) × (traverse (output mode) e.1 ≡ ok (result e.0))) entries
      → append_groups mode n bs entries ≡ append_rows bs (map (λ e. e.0 ++ result e.0) entries)
  unfolding append_groups append_group append_rows
  append_groups-rows n result [] bs h = refl
  append_groups-rows n result ((key, accs) ∷ entries) bs ((l, h), hs) =
      ap (λ m. m >>= λ bs'. append_groups mode n bs' entries)
        (subst (λ n. append_group mode n bs (key, accs) ≡ append_row bs (key ++ result key)) l
          (append_outputs-row key accs (result key) bs h))
      ∙ bind-ext (append_row bs (key ++ result key)) _ _
          (λ bs'. append_groups-rows n result entries bs' hs)
