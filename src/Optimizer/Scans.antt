-- ===== src/Optimizer/Scans.antt =====
-- What becomes of a table scan: which columns it reads, and what its schema says of each requested
-- name (fdapquery-optimizer/src/projection_push_down_rule.rs, fdapquery-expr/src/scan.rs).
use mathlib.Core.List.{Perm}
use fdapquery.Base.{
  ℕ, zero, suc, String, ◌≡◌, refl, ap, ◌∙◌, subst, Bool, true, false, ◌||◌, ◌&&◌, none, some, List,
  [], ◌∷◌, arith, inl, inr, find, Bool-cases, if◌then◌else◌, get_elem?, filter, map, text_eq,
  eq_iff, eq_refl, is_empty,
}
use fdapquery.Base.Names.{contains, Subset}
use fdapquery.External.{External, pick}
use fdapquery.Errors.{ok, bind-eq-ok, ok-injective, traverse}
use fdapquery.Expr.Field.{has_name}
use fdapquery.Plan.Scan.{TableScan, TableSource, position, name_position, derive_schema, new_scan}
use fdapquery.Optimizer.{sort, insert_sorted, requested, push_down_scan}
use fdapquery.Optimizer.Columns.{Agree, Agree-refl}
use fdapquery.Optimizer.Sorted.{Ascending, Perm-sort, Ascending-sort, is_empty-sort}

contains-insert_sorted :
    (s : String) (ts : List String) (n : String)
    → contains (insert_sorted s ts) n ≡ (text_eq s n || contains ts n)
unfolding insert_sorted contains
contains-insert_sorted s [] n = refl
contains-insert_sorted s (t ∷ ts) n = ground (arith, contains-insert_sorted s ts n)

contains-sort : (ns : List String) (n : String) → contains (sort ns) n ≡ contains ns n
unfolding sort contains
contains-sort [] n = refl
contains-sort (m ∷ ms) n =
    contains-insert_sorted m (sort ms) n ∙ ap (λ b. text_eq m n || b) (contains-sort ms n)

contains-filter :
    (p : String → Bool) (ns : List String) (n : String)
    → contains (filter p ns) n ≡ (contains ns n && p n)
unfolding filter contains
contains-filter p [] n = refl
contains-filter p (m ∷ ms) n = ground (arith, contains-filter p ms n, eq_iff m n)

find_holds {ℓ} : {A : Type ℓ} (p : A → Bool) (xs : List A) (x : A) → find p xs ≡ some x → p x ≡ true
unfolding find
find_holds p [] x h = cc
find_holds p (y ∷ ys) x h = ground (arith, find_holds p ys x)

-- Where `find` finds an element, `position` finds its place.
position-find {ℓ} :
    {A : Type ℓ} (p : A → Bool) (xs : List A) {x : A}
    → find p xs ≡ some x
    → (i : ℕ) × (position p xs ≡ some i) × (get_elem? xs i ≡ some x)
unfolding find position
position-find p [] h = cc
position-find p (y ∷ ys) h = elim (Bool-cases (p y)) [
  | inl t ↦ (zero, rw t, rw t at h)
  | inr t ↦ let (i, a, b) = position-find p ys (rw t at h) in (suc i, rw (t, a), b)
]

module _ ⦃ext : External⦄ where
  -- A name occurs among the fields exactly where `find` finds a field.
  find-contains :
      (n : String) (fs : List ext.Field)
      → contains (map ext.name fs) n ≡ true
      → (f : ext.Field) × (find (has_name n) fs ≡ some f)
  unfolding contains find
  find-contains n [] h = cc
  find-contains n (f ∷ fs) h = elim (Bool-cases (text_eq (ext.name f) n)) [
    | inl t ↦ (f, rw t)
    | inr t ↦ let (g, a) = find-contains n fs (rw t at h) in (g, rw t a)
  ]

  find-not_contains :
      (n : String) (fs : List ext.Field)
      → contains (map ext.name fs) n ≡ false
      → find (has_name n) fs ≡ none
  unfolding contains find
  find-not_contains n [] h = refl
  find-not_contains n (f ∷ fs) h = ground (arith, find-not_contains n fs)

  -- `gs` holds, for each name in order, the field that the name stands for.
  abbrev Resolved : List ext.Field → List String → List ext.Field → Type 0
  Resolved fs [] [] = Unit
  Resolved fs (n ∷ ns) (g ∷ gs) = (find (has_name n) fs ≡ some g) × Resolved fs ns gs
  Resolved fs _ _ = ⊥

  find-Resolved :
      (n : String) (fs : List ext.Field) (ns : List String) (gs : List ext.Field)
      → Resolved fs ns gs
      → find (has_name n) gs ≡ (if contains ns n then find (has_name n) fs else none)
  unfolding find contains
  find-Resolved n fs [] [] r = refl
  find-Resolved n fs (m ∷ ms) (g ∷ gs) r = ground (
    arith,
    find-Resolved n fs ms gs r.1,
    find_holds (has_name m) fs g r.0,
    eq_iff (ext.name g) m,
    eq_iff m n,
    eq_iff (ext.name g) n,
  )
  find-Resolved n fs [] (g ∷ gs) r = absurd r
  find-Resolved n fs (m ∷ ms) [] r = absurd r

  -- Names that all occur among the fields of a schema resolve, by their positions, to fields.
  resolve :
      (s : ext.Schema) (ns : List String)
      → Subset ns (map ext.name (ext.fields s))
      → (is : List ℕ) × (gs : List ext.Field) × (traverse (name_position s) ns ≡ ok is)
        × (pick is (ext.fields s) ≡ some gs)
        × Resolved (ext.fields s) ns gs
  unfolding traverse name_position pick contains
  resolve s [] sub = ([], [], refl, refl, tt)
  resolve s (n ∷ ns) sub =
      let (f, found) = find-contains n (ext.fields s) (sub.at n (rw (eq_refl n))) in
      let (i, at, elem) = position-find (has_name n) (ext.fields s) found in
      let (is, gs, a, b, r) =
        resolve s ns (record { at = λ m h. sub.at m (rw h (ground arith)) }) in
      (i ∷ is, f ∷ gs, rw (at, a), rw (elem, b, pick), (found, r))

  contains-requested :
      (s : ext.Schema) (accum : List String) (n : String)
      → contains (requested s accum) n
        ≡ (contains (map ext.name (ext.fields s)) n && contains accum n)
  unfolding requested
  contains-requested s accum n =
      contains-sort _ n ∙ contains-filter (contains accum) (map ext.name (ext.fields s)) n

  -- A projected schema gives each requested name the field that the source gives it.
  Agree-Resolved :
      (s t : ext.Schema) (accum : List String) {gs : List ext.Field}
      → ext.fields t ≡ gs
      → Resolved (ext.fields s) (requested s accum) gs
      → Agree accum s t
  Agree-Resolved s t accum {gs} e r = record {
    at = λ n h. rw e (
        find-Resolved n (ext.fields s) (requested s accum) gs r
        ∙ ground (arith, h, contains-requested s accum n, find-not_contains n (ext.fields s)));
  }

  Subset-requested :
      (s : ext.Schema) (accum : List String)
      → Subset (requested s accum) (map ext.name (ext.fields s))
  Subset-requested s accum = record { at = λ n h. ground (arith, h, contains-requested s accum n) }

  derive_schema_total :
      (source : TableSource) (accum : List String)
      → (t : ext.Schema) × (derive_schema source (requested source.schema accum) ≡ ok t)
        × Agree accum source.schema t
  unfolding derive_schema
  derive_schema_total source accum = elim (Bool-cases (is_empty (requested source.schema accum))) [
    | inl e ↦ (source.schema, rw e, Agree-refl accum source.schema)
    | inr e ↦
        let (is, gs, a, b, r) =
          resolve source.schema (requested source.schema accum)
            (Subset-requested source.schema accum) in
        let (t, p, f) = ext.fields-project source.schema is gs b in
        (t, rw (e, a, p), Agree-Resolved source.schema t accum f r)
  ]

  -- The pushed-down scan of a table is always made, whatever was requested: it reads the requested
  -- columns of the source, and its schema gives each requested name the field that the source gives
  -- it.
  pub push_down_scan_total :
      (s : TableScan) (accum : List String)
      → (scan : TableScan) × (push_down_scan s accum ≡ ok scan)
        × (scan.projection ≡ requested s.data_source.schema accum)
        × Agree accum s.data_source.schema scan.schema
  unfolding push_down_scan new_scan
  push_down_scan_total s accum =
      let (t, p, agree) = derive_schema_total s.data_source accum in
      (
        record {
          path = s.path;
          data_source = s.data_source;
          projection = requested s.data_source.schema accum;
          schema = t;
        },
        rw p,
        refl,
        agree,
      )

  names-Resolved :
      (fs : List ext.Field) (ns : List String) (gs : List ext.Field)
      → Resolved fs ns gs
      → map ext.name gs ≡ ns
  names-Resolved fs [] [] r = refl
  names-Resolved fs (n ∷ ns) (g ∷ gs) r =
      let named = (eq_iff (ext.name g) n).0 (find_holds (has_name n) fs g r.0) in
      λ i. named i ∷ names-Resolved fs ns gs r.1 i
  names-Resolved fs [] (g ∷ gs) r = absurd r
  names-Resolved fs (n ∷ ns) [] r = absurd r

  names-derive_schema :
      (source : TableSource) (accum : List String) (t : ext.Schema)
      → is_empty (requested source.schema accum) ≡ false
      → derive_schema source (requested source.schema accum) ≡ ok t
      → map ext.name (ext.fields t) ≡ requested source.schema accum
  unfolding derive_schema
  names-derive_schema source accum t e h =
      let (is, gs, a, b, r) =
        resolve source.schema (requested source.schema accum)
          (Subset-requested source.schema accum) in
      let (u, p, f) = ext.fields-project source.schema is gs b in
      let same = ok-injective (rw (e, a, p) at h) in
      subst (λ x. map ext.name (ext.fields x) ≡ requested source.schema accum) same
        (ap (map ext.name) f
          ∙ names-Resolved (ext.fields source.schema) (requested source.schema accum) gs r)

  pub names-requested :
      (s scan : TableScan) (accum : List String)
      → is_empty (requested s.data_source.schema accum) ≡ false
      → push_down_scan s accum ≡ ok scan
      → map ext.name (ext.fields scan.schema) ≡ requested s.data_source.schema accum
  unfolding push_down_scan new_scan
  names-requested s scan accum e h =
      let (t, p, q) = bind-eq-ok (derive_schema s.data_source _) _ h in
      subst (λ x. map ext.name (ext.fields x.schema) ≡ requested s.data_source.schema accum)
        (ok-injective q) (names-derive_schema s.data_source accum t e p)

  -- The names of the source's fields that are in a set of names, in the source's order.
  abbrev pub names_in : ext.Schema → List String → List String
  names_in source names = filter (contains names) (map ext.name (ext.fields source))

  is_empty-requested :
      (source : ext.Schema) (accum : List String)
      → is_empty (names_in source accum) ≡ false
      → is_empty (requested source accum) ≡ false
  unfolding requested
  is_empty-requested source accum h = is_empty-sort (names_in source accum) ∙ h

  -- A pushed-down scan of which some column was requested has exactly the requested source columns:
  -- the names of its schema are, up to order, the source's names that were requested, and they are
  -- sorted.
  pub names-push_down_scan :
      (s scan : TableScan) (accum : List String)
      → is_empty (names_in s.data_source.schema accum) ≡ false
      → push_down_scan s accum ≡ ok scan
      → Perm (map ext.name (ext.fields scan.schema)) (names_in s.data_source.schema accum)
        × Ascending (map ext.name (ext.fields scan.schema))
  unfolding requested
  names-push_down_scan s scan accum e h =
      rw (names-requested s scan accum (is_empty-requested s.data_source.schema accum e) h) (
        Perm-sort (names_in s.data_source.schema accum),
        Ascending-sort (names_in s.data_source.schema accum),
      )
