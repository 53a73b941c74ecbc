-- ===== src/Aggregate/Groups.antt =====
-- The groups of fdapquery-physical-plan/src/aggregate_exec.rs: what the map holds after a list of
-- rows.
use mathlib.Core.List.{append_assoc, append-nil}
use mathlib.Core.Path.{fun_ext}
use fdapquery.Base.{
  ℕ, ◌≡◌, refl, sym, ap, ◌∙◌, subst, true, false, ◌||◌, List, [], ◌∷◌, ◌++◌, map, All, filter,
  if◌then◌else◌, inl, inr, Bool-cases, arith,
}
use fdapquery.External.{External}
use fdapquery.Errors.{Outcome, ok, ◌>>=◌, bind-eq-ok}
use fdapquery.PhysicalExpr.{AggregateExpr}
use fdapquery.Rows.{Row}
use fdapquery.Rows.Read.{row_key}
use fdapquery.RowKey.{Hashing, row_eq}
use fdapquery.RowKey.Laws.{row_eq_iff}
use fdapquery.Distributed.{AggregateMode}
use fdapquery.Accumulator.{Floats}
use fdapquery.Accumulator.Kinds.{Accumulator, Conversions}
use fdapquery.Join.HashTable.{contains_key, matches}
use fdapquery.Shuffle.Parts.{filter-append}
use fdapquery.Aggregate.{GroupTable, fresh, update_group}
use fdapquery.Aggregate.Fold.{fold_rows, fold_rows-append, bind-ok, feed_values, group_step}

true_ne_false : ¬ (true ≡ false)
true_ne_false h = cc

module _ ⦃ext : External⦄ ⦃hashing : Hashing⦄ where
  unfoldable pub add_key : List Row → Row → List Row
  add_key ks key = if contains_key ks key then ks else ks ++ key ∷ []

  -- The keys of rows, in the order in which they first come.
  unfoldable pub keys_of : List ℕ → List Row → List Row → List Row
  unfolding add_key
  keys_of keys seen [] = seen
  keys_of keys seen (r ∷ rows) = keys_of keys (add_key seen (row_key keys r)) rows

  abbrev pub Distinct : List Row → Type 0
  Distinct [] = Unit
  Distinct (k ∷ ks) = (contains_key ks k ≡ false) × Distinct ks

  row_eq_sym : (a b : Row) → row_eq a b ≡ false → row_eq b a ≡ false
  row_eq_sym a b h = ground (arith, row_eq_iff a b, row_eq_iff b a)

  contains_key-snoc :
      (ks : List Row) (a k : Row)
      → contains_key (ks ++ a ∷ []) k ≡ (contains_key ks k || row_eq a k)
  unfolding contains_key
  contains_key-snoc [] a k = ground arith
  contains_key-snoc (k' ∷ ks) a k = ground (arith, contains_key-snoc ks a k)

  Distinct-snoc :
      (ks : List Row) (a : Row) → Distinct ks → contains_key ks a ≡ false → Distinct (ks ++ a ∷ [])
  unfolding contains_key
  Distinct-snoc [] a d h = (refl, tt)
  Distinct-snoc (k ∷ ks) a (here, d) h = (
    ground (arith, contains_key-snoc ks a k, here, h, row_eq_iff k a, row_eq_iff a k),
    Distinct-snoc ks a d (ground (arith, h)),
  )

  Distinct-add_key : (ks : List Row) (a : Row) → Distinct ks → Distinct (add_key ks a)
  unfolding add_key
  Distinct-add_key ks a d = elim (Bool-cases (contains_key ks a)) [
    | inl e ↦ rw e d
    | inr e ↦ rw e (Distinct-snoc ks a d e)
  ]

  add_key-known :
      (ks : List Row) (a key : Row)
      → contains_key ks a ≡ true
      → contains_key ks key ≡ false
      → (contains_key ks key ≡ false) × (row_eq a key ≡ false)
  add_key-known ks a key e h = elim (Bool-cases (row_eq a key)) [
    | inl same ↦
        absurd (true_ne_false (sym e ∙ ap (contains_key ks) ((row_eq_iff a key).0 same) ∙ h))
    | inr other ↦ (h, other)
  ]

  add_key-cons :
      (k : Row) (ks : List Row) (key : Row)
      → row_eq k key ≡ false
      → add_key (k ∷ ks) key ≡ k ∷ add_key ks key
  unfolding add_key contains_key
  add_key-cons k ks key h = elim (Bool-cases (contains_key ks key)) [
    | inl e ↦ rw (h, e) refl
    | inr e ↦ rw (h, e) refl
  ]

  -- A key that is not there after another is added was not there, and is not the other.
  add_key-misses :
      (ks : List Row) (a key : Row)
      → contains_key (add_key ks a) key ≡ false
      → (contains_key ks key ≡ false) × (row_eq a key ≡ false)
  unfolding add_key
  add_key-misses ks a key h = elim (Bool-cases (contains_key ks a)) [
    | inl e ↦ add_key-known ks a key e (rw e at h)
    | inr e ↦
        let split : (contains_key ks key || row_eq a key) ≡ false =
          sym (contains_key-snoc ks a key) ∙ rw e at h in
        (ground (arith, split), ground (arith, split))
  ]

module _ ⦃ext : External⦄ ⦃hashing : Hashing⦄ ⦃floats : Floats⦄ ⦃conversions : Conversions⦄
    (mode : AggregateMode) (aggs : List AggregateExpr) (keys cols : List ℕ) where
  -- What the accumulators of a group are after its rows.
  unfoldable pub group_of : Row → List Row → Outcome (List Accumulator)
  group_of key rows =
      fold_rows (λ accs r. feed_values mode (row_key cols r) accs) (fresh aggs)
        (matches keys key rows)

  matches-snoc :
      (key : Row) (xs : List Row) (r : Row)
      → matches keys key (xs ++ r ∷ [])
        ≡ matches keys key xs ++ (if row_eq (row_key keys r) key then r ∷ [] else [])
  unfolding matches filter
  matches-snoc key xs r = filter-append (λ r. row_eq (row_key keys r) key) xs (r ∷ [])

  group_of-hit :
      (key : Row) (xs : List Row) (r : Row)
      → row_eq (row_key keys r) key ≡ true
      → group_of key (xs ++ r ∷ [])
        ≡ (group_of key xs >>= λ accs. feed_values mode (row_key cols r) accs)
  unfolding group_of fold_rows
  group_of-hit key xs r h =
      let step = λ (accs : List Accumulator) (r : Row). feed_values mode (row_key cols r) accs in
      rw (matches-snoc key xs r, h)
        (fold_rows-append step (fresh aggs) (matches keys key xs) (r ∷ [])
          ∙ ap (λ f. fold_rows step (fresh aggs) (matches keys key xs) >>= f)
              (fun_ext (λ accs. bind-ok (step accs r))))

  group_of-miss :
      (key : Row) (xs : List Row) (r : Row)
      → row_eq (row_key keys r) key ≡ false
      → group_of key (xs ++ r ∷ []) ≡ group_of key xs
  unfolding group_of
  group_of-miss key xs r h =
      let step = λ (accs : List Accumulator) (r : Row). feed_values mode (row_key cols r) accs in
      ap (fold_rows step (fresh aggs))
        (matches-snoc key xs r ∙ rw h (append-nil (matches keys key xs)))

  group_of-absent :
      (key : Row) (xs : List Row) → matches keys key xs ≡ [] → group_of key xs ≡ ok (fresh aggs)
  unfolding group_of fold_rows
  group_of-absent key xs h = rw h refl

  -- Every group of the table is that of the rows with its key.
  abbrev pub Held : List Row → GroupTable → Type 0
  Held xs table = All (λ e. group_of e.0 xs ≡ ok e.1) table

  abbrev pub keys_in : GroupTable → List Row
  keys_in table = map (λ e. e.0) table

  Held-other :
      (xs : List Row) (r : Row) (table : GroupTable)
      → contains_key (keys_in table) (row_key keys r) ≡ false
      → Held xs table
      → Held (xs ++ r ∷ []) table
  unfolding contains_key
  Held-other xs r [] h held = tt
  Held-other xs r ((k, accs) ∷ table) h (here, held) =
      let no : row_eq k (row_key keys r) ≡ false = ground (arith, h) in
      (
        group_of-miss k xs r (row_eq_sym k (row_key keys r) no) ∙ here,
        Held-other xs r table (ground (arith, h)) held,
      )

  -- A row is added to its group, or to a new one.
  update_group-Held :
      (xs : List Row) (r : Row) (table : GroupTable)
      → ((key : Row) → (accs : List Accumulator) × (group_of key (xs ++ r ∷ []) ≡ ok accs))
      → Held xs table
      → Distinct (keys_in table)
      → (contains_key (keys_in table) (row_key keys r) ≡ false
          → matches keys (row_key keys r) xs ≡ [])
      → (table' : GroupTable) × (update_group
            (row_key keys r)
            (fresh aggs)
            (feed_values mode (row_key cols r))
            table
          ≡ ok table')
        × Held (xs ++ r ∷ []) table'
        × (keys_in table' ≡ add_key (keys_in table) (row_key keys r))
  unfolding update_group contains_key add_key
  update_group-Held xs r [] total held d absent =
      let key = row_key keys r in
      let f = feed_values mode (row_key cols r) in
      let (accs, e) = total key in
      let fed : f (fresh aggs) ≡ ok accs =
        sym (ap (λ m. m >>= f) (group_of-absent key xs (absent refl)))
        ∙ sym (group_of-hit key xs r ((row_eq_iff key key).1 refl))
        ∙ e in
      ((key, accs) ∷ [], rw fed refl, (e, tt), refl)
  update_group-Held xs r ((k, accs) ∷ table) total (here, held) (distinct, d) absent =
      let key = row_key keys r in
      let f = feed_values mode (row_key cols r) in
      elim (Bool-cases (row_eq k key)) [
        | inl e ↦
            let same = (row_eq_iff k key).0 e in
            let (accs', e') = total k in
            let fed : f accs ≡ ok accs' =
              sym (ap (λ m. m >>= f) here)
              ∙ sym (group_of-hit k xs r ((row_eq_iff key k).1 (sym same)))
              ∙ e' in
            (
              (k, accs') ∷ table,
              rw (e, fed) refl,
              (
                e',
                Held-other xs r table
                    (subst (λ k. contains_key (keys_in table) k ≡ false) same distinct) held,
              ),
              rw e refl,
            )
        | inr e ↦
            let (table', u, held', ks) =
              update_group-Held xs r table total held d (λ h. absent (rw e h)) in
            (
              (k, accs) ∷ table',
              rw (e, u) refl,
              (group_of-miss k xs r (row_eq_sym k key e) ∙ here, held'),
              ap (λ ks. k ∷ ks) ks ∙ sym (add_key-cons k (keys_in table) key e),
            )
      ]

  group_of-prefix :
      (key : Row) (xs ys : List Row) (accs : List Accumulator)
      → group_of key (xs ++ ys) ≡ ok accs
      → (accs' : List Accumulator) × (group_of key xs ≡ ok accs')
  unfolding group_of matches
  group_of-prefix key xs ys accs h =
      let step = λ (accs : List Accumulator) (r : Row). feed_values mode (row_key cols r) accs in
      let test = λ (r : Row). row_eq (row_key keys r) key in
      let (accs', e, rest) = bind-eq-ok (fold_rows step (fresh aggs) (filter test xs)) _ (
        sym (fold_rows-append step (fresh aggs) (filter test xs) (filter test ys))
        ∙ ap (fold_rows step (fresh aggs)) (sym (filter-append test xs ys))
        ∙ h) in
      (accs', e)

  -- After rows whose groups can all be computed, the table holds these groups under their keys, in
  -- the order in which the keys first come.
  pub fold_rows-Held :
      (ys xs : List Row) (table : GroupTable)
      → ((key : Row) → (accs : List Accumulator) × (group_of key (xs ++ ys) ≡ ok accs))
      → Held xs table
      → Distinct (keys_in table)
      → ((key : Row) → contains_key (keys_in table) key ≡ false → matches keys key xs ≡ [])
      → (table' : GroupTable) × (fold_rows (group_step mode aggs keys cols) table ys ≡ ok table')
        × Held (xs ++ ys) table'
        × (keys_in table' ≡ keys_of keys (keys_in table) ys)
  unfolding fold_rows keys_of group_step
  fold_rows-Held [] xs table total held d absent =
      (table, refl, subst (λ zs. Held zs table) (sym (append-nil xs)) held, refl)
  fold_rows-Held (r ∷ ys) xs table total held d absent =
      let whole = append_assoc xs (r ∷ []) ys in
      let total' = λ (key : Row).
        group_of-prefix key (xs ++ r ∷ []) ys (total key).0
          (ap (group_of key) whole ∙ (total key).1) in
      let (mid, e, held', ks) =
        update_group-Held xs r table total' held d (absent (row_key keys r)) in
      let (table', e', held'', ks') =
        fold_rows-Held ys (xs ++ r ∷ []) mid
          (λ key. ((total key).0, ap (group_of key) whole ∙ (total key).1)) held'
          (subst Distinct (sym ks) (Distinct-add_key (keys_in table) (row_key keys r) d))
          (λ key h.
            let (miss, other) = add_key-misses (keys_in table) (row_key keys r) key (rw ks at h) in
            matches-snoc key xs r ∙ rw (absent key miss, other) refl) in
      (
        table',
        rw e e',
        subst (λ zs. Held zs table') whole held'',
        ks' ∙ ap (λ ks. keys_of keys ks ys) ks,
      )
