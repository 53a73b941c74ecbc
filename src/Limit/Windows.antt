-- ===== src/Limit/Windows.antt =====
-- fdapquery-physical-plan/src/global_limit_exec.rs, local_limit_exec.rs: the rows and the failures of
-- a limited stream.
use fdapquery.Base.{
  ℕ, ◌+◌, ◌-◌, ◌≤◌, ◌<◌, ◌≡◌, refl, sym, ◌∙◌, ap, inl, inr, Bool, true, false, Option, none, some,
  List, [], ◌∷◌, ◌++◌, length, take, drop, leb, leb-cases, zero-cases, length-append, ◌==◌,
  if◌then◌else◌, take-all, take-append_left, take-append_right, drop-append_left, drop-append_right,
  length-drop, arith, append_nil, take-nil, drop-nil,
}
use fdapquery.External.{External}
use fdapquery.Errors.{FdapQueryError}
use fdapquery.Limit.{Batches, Stream, emit, window}

full : (skip remaining rows : ℕ) → skip + remaining ≤ rows → true ≡ leb (skip + remaining) rows
full skip remaining rows h = ground arith

if_same : {A : Type 0} (t : Bool) → if◌then◌else◌ {A = Option A} t none none ≡ none
if_same true = refl
if_same false = refl

module _ ⦃ext : External⦄ ⦃arrow : Batches⦄ where
  -- The rows that a stream delivers before its first error, and that error.
  unfoldable pub ok_rows : Stream → List arrow.Row
  ok_rows [] = []
  ok_rows (inl e ∷ s) = []
  ok_rows (inr b ∷ s) = arrow.rows b ++ ok_rows s

  unfoldable pub failure : Stream → Option FdapQueryError
  failure [] = none
  failure (inl e ∷ s) = some e
  failure (inr b ∷ s) = failure s

  rows-tail :
      (b : arrow.RecordBatch) (skip : ℕ)
      → skip ≤ arrow.num_rows b
      → arrow.rows (arrow.slice b skip (arrow.num_rows b - skip)) ≡ drop skip (arrow.rows b)
  rows-tail b skip h =
      let n = arrow.num_rows-rows b in
      arrow.rows-slice b skip (arrow.num_rows b - skip) (omega arith)
      ∙ take-all (arrow.num_rows b - skip) (drop skip (arrow.rows b))
          (omega (arith, length-drop skip (arrow.rows b) (omega arith)))

  -- Whether the window is full before the input's rows are at an end.
  abbrev pub filled : (skip remaining rows : ℕ) → Bool
  filled skip remaining rows = if remaining == 0 then true else leb (skip + remaining) rows

  -- The batch at hand with the rest of its input.
  ok_rows-emit :
      (remaining : ℕ) (b : arrow.RecordBatch) (n : ℕ) (rest : Stream) (more : List arrow.Row)
      → length (arrow.rows b) ≡ n
      → ok_rows rest ≡ take (remaining - n) more
      → ok_rows (emit remaining b n rest) ≡ take remaining (arrow.rows b ++ more)
  unfolding emit ok_rows drop take
  ok_rows-emit remaining b n rest more same h = elim (leb-cases n remaining) [
    | inl (t, le) ↦
        rw (t, h)
          (ap (λ k. arrow.rows b ++ take (remaining - k) more) (sym same)
            ∙ sym (take-append_right (arrow.rows b) more remaining (omega arith)))
    | inr (t, gt) ↦ rw t (
        append_nil (arrow.rows (arrow.slice b 0 remaining))
        ∙ arrow.rows-slice b 0 remaining (omega (arith, arrow.num_rows-rows b))
        ∙ sym (take-append_left remaining (arrow.rows b) more (omega arith)))
  ]

  -- The rows of a window are those at its positions in the input.
  pub ok_rows-window :
      (s : Stream) (skip remaining : ℕ)
      → ok_rows (window skip remaining s) ≡ take remaining (drop skip (ok_rows s))
  unfolding window ok_rows take drop
  ok_rows-window [] skip remaining = sym (ap (take remaining) (drop-nil skip) ∙ take-nil remaining)
  ok_rows-window (inl e ∷ s) skip remaining = elim (zero-cases remaining) [
    | inl (t, z) ↦ rw t (sym (ap (take remaining) (drop-nil skip) ∙ take-nil remaining))
    | inr (t, z) ↦ rw t (sym (ap (take remaining) (drop-nil skip) ∙ take-nil remaining))
  ]
  ok_rows-window (inr b ∷ s) skip remaining =
      let n = arrow.num_rows-rows b in
      elim (zero-cases remaining) [
        | inl (t, z) ↦ rw t (sym (ap (λ k. take k (drop skip (arrow.rows b ++ ok_rows s))) z))
        | inr (t, pos) ↦ elim (zero-cases skip) [
          | inl (u, z) ↦
              rw (t, u)
                (ok_rows-emit remaining b (arrow.num_rows b) _ (ok_rows s) (sym n)
                    (ok_rows-window s 0 (remaining - arrow.num_rows b))
                  ∙ sym (ap (λ k. take remaining (drop k (arrow.rows b ++ ok_rows s))) z))
          | inr (u, skipping) ↦ elim (leb-cases (arrow.num_rows b) skip) [
            | inl (v, le) ↦
                rw (t, u, v)
                  (ok_rows-window s (skip - arrow.num_rows b) remaining
                    ∙ ap (λ k. take remaining (drop (skip - k) (ok_rows s))) n
                    ∙ sym (
                        ap (take remaining)
                          (drop-append_right (arrow.rows b) (ok_rows s) skip (omega arith))))
            | inr (v, gt) ↦
                let tail = rows-tail b skip (omega arith) in
                rw (t, u, v)
                  (ok_rows-emit remaining (arrow.slice b skip (arrow.num_rows b - skip))
                      (arrow.num_rows b - skip) _ (ok_rows s)
                      (ap length tail
                        ∙ omega (arith, length-drop skip (arrow.rows b) (omega arith)))
                      (ok_rows-window s 0 (remaining - (arrow.num_rows b - skip)))
                    ∙ ap (λ x. take remaining (x ++ ok_rows s)) tail
                    ∙ sym (
                        ap (take remaining)
                          (drop-append_left skip (arrow.rows b) (ok_rows s) (omega arith))))
          ]
        ]
      ]

  failure-emit :
      (remaining : ℕ) (b : arrow.RecordBatch) (n : ℕ) (rest : Stream) (o : Option FdapQueryError)
      → (n ≤ remaining → failure rest ≡ o)
      → (remaining < n → none ≡ o)
      → failure (emit remaining b n rest) ≡ o
  unfolding emit failure
  failure-emit remaining b n rest o within past = elim (leb-cases n remaining) [
    | inl (t, le) ↦ rw t (within le)
    | inr (t, gt) ↦ rw t (past gt)
  ]

  -- The error of a window is the input's, unless the window is full before it.
  pub failure-window :
      (s : Stream) (skip remaining : ℕ)
      → failure (window skip remaining s)
        ≡ (if filled skip remaining (length (ok_rows s)) then none else failure s)
  unfolding window failure ok_rows
  failure-window [] skip remaining = sym (if_same (filled skip remaining 0))
  failure-window (inl e ∷ s) skip remaining = ground (arith)
  failure-window (inr b ∷ s) skip remaining =
      let n = arrow.num_rows-rows b in
      let len = length-append (arrow.rows b) (ok_rows s) in
      let result = λ (t : Bool). if t then none else failure s in
      elim (zero-cases remaining) [
        | inl (t, z) ↦ rw t refl
        | inr (t, pos) ↦ elim (zero-cases skip) [
          | inl (u, z) ↦
              rw (t, u)
                (failure-emit remaining b (arrow.num_rows b) _ _
                  (λ le.
                    failure-window s 0 (remaining - arrow.num_rows b)
                    ∙ ap result (ground (arith, n, len)))
                  (λ gt. ap result (full skip remaining _ (omega (arith, n, len)))))
          | inr (u, skipping) ↦ elim (leb-cases (arrow.num_rows b) skip) [
            | inl (v, le) ↦
                rw (t, u, v)
                  (failure-window s (skip - arrow.num_rows b) remaining
                    ∙ ap result (ground (arith, n, len)))
            | inr (v, gt) ↦
                rw (t, u, v)
                  (failure-emit remaining (arrow.slice b skip (arrow.num_rows b - skip))
                    (arrow.num_rows b - skip) _ _
                    (λ le.
                      failure-window s 0 (remaining - (arrow.num_rows b - skip))
                      ∙ ap result (ground (arith, n, len)))
                    (λ lt. ap result (full skip remaining _ (omega (arith, n, len)))))
          ]
        ]
      ]
