-- ===== src/Tests/SampleArrow.antt =====
-- A concrete instance of arrow's arrays and batches, over the sample of the other crates: an array
-- is a type and its cells as scalars.
use fdapquery.Base.{
  ℕ, zero, suc, pos, Bool, true, false, ◌&&◌, ◌≡◌, ◌≢◌, refl, ap, sym, subst, ◌∙◌, Option, none,
  some, List, [], ◌∷◌, ◌⊎◌, inl, inr, map, length, get_elem?, All, ◌==◌, if◌then◌else◌, arith,
  Bool-cases,
}
use fdapquery.Arrow.{Kind, Native, type_of, is_none_at, Arrow}
use fdapquery.Scalar.{ScalarValue, is_null}
use fdapquery.Scalar.Arrays.{cell_of, is_null-scalar_of}
use fdapquery.Scalar.Builder.{native_of, native_of-scalar_of}
use fdapquery.Tests.Sample.{SampleField, sample}

pub record Column : Type 0 where
  pub kind : Kind
  pub cells : List ScalarValue

pub record Batch : Type 0 where
  pub count : ℕ
  pub columns : List Column

sample_kinds : List (ℕ × Kind)
sample_kinds =
    (1, Kind.boolean)
    ∷ (2, Kind.int8)
    ∷ (3, Kind.int16)
    ∷ (4, Kind.int32)
    ∷ (5, Kind.int64)
    ∷ (6, Kind.uint8)
    ∷ (7, Kind.uint16)
    ∷ (8, Kind.uint32)
    ∷ (9, Kind.uint64)
    ∷ (10, Kind.float32)
    ∷ (11, Kind.float64)
    ∷ (12, Kind.utf8)
    ∷ (13, Kind.binary)
    ∷ (14, Kind.date32)
    ∷ []

lookup_kind : ℕ → List (ℕ × Kind) → Option Kind
lookup_kind t [] = none
lookup_kind t ((n, k) ∷ ks) = if n == t then some k else lookup_kind t ks

unfoldable pub sample_kind_of : ℕ → Option Kind
unfolding sample_kinds lookup_kind
sample_kind_of t = lookup_kind t sample_kinds

pub sample_kind_of-type_of : (k : Kind) → sample_kind_of (type_of k) ≡ some k
unfolding sample_kind_of
sample_kind_of-type_of Kind.boolean = refl
sample_kind_of-type_of Kind.int8 = refl
sample_kind_of-type_of Kind.int16 = refl
sample_kind_of-type_of Kind.int32 = refl
sample_kind_of-type_of Kind.int64 = refl
sample_kind_of-type_of Kind.uint8 = refl
sample_kind_of-type_of Kind.uint16 = refl
sample_kind_of-type_of Kind.uint32 = refl
sample_kind_of-type_of Kind.uint64 = refl
sample_kind_of-type_of Kind.float32 = refl
sample_kind_of-type_of Kind.float64 = refl
sample_kind_of-type_of Kind.utf8 = refl
sample_kind_of-type_of Kind.binary = refl
sample_kind_of-type_of Kind.date32 = refl

default_value : (k : Kind) → Native k
default_value Kind.boolean = false
default_value Kind.int8 = pos 0
default_value Kind.int16 = pos 0
default_value Kind.int32 = pos 0
default_value Kind.int64 = pos 0
default_value Kind.uint8 = 0
default_value Kind.uint16 = 0
default_value Kind.uint32 = 0
default_value Kind.uint64 = 0
default_value Kind.float32 = 0
default_value Kind.float64 = 0
default_value Kind.utf8 = ""
default_value Kind.binary = []
default_value Kind.date32 = pos 0

or_default : (k : Kind) → Option (Native k) → Native k
unfolding default_value
or_default k none = default_value k
or_default k (some v) = v

value_or : (k : Kind) → Option ScalarValue → Native k
unfolding or_default
value_or k none = default_value k
value_or k (some s) = or_default k (native_of k s)

unfoldable pub sample_value : (k : Kind) → Column → ℕ → Native k
unfolding value_or native_of
sample_value k c i = value_or k (get_elem? c.cells i)

null_or_not : Option ScalarValue → Bool
null_or_not none = false
null_or_not (some s) = is_null s

unfoldable pub sample_is_null : Column → ℕ → Bool
unfolding null_or_not is_null
sample_is_null c i = null_or_not (get_elem? c.cells i)

unfoldable pub sample_finish : (k : Kind) → List (Option (Native k)) → Column
sample_finish k xs = record { kind = k; cells = map (cell_of k) xs }

pub length-map {ℓ κ} :
    {A : Type ℓ} {B : Type κ} (f : A → B) (xs : List A) → length (map f xs) ≡ length xs
length-map f [] = refl
length-map f (x ∷ xs) = ap suc (length-map f xs)

pub kind-sample_finish :
    (k : Kind) (xs : List (Option (Native k))) → type_of (sample_finish k xs).kind ≡ type_of k
unfolding sample_finish
kind-sample_finish k xs = refl

pub length-sample_finish :
    (k : Kind) (xs : List (Option (Native k))) → length (sample_finish k xs).cells ≡ length xs
unfolding sample_finish
length-sample_finish k xs = length-map (cell_of k) xs

pub sample_is_null-finish :
    (k : Kind) (xs : List (Option (Native k))) (i : ℕ)
    → sample_is_null (sample_finish k xs) i ≡ is_none_at xs i
unfolding sample_is_null sample_finish cell_of
sample_is_null-finish k [] i = refl
sample_is_null-finish k (none ∷ xs) zero = refl
sample_is_null-finish k (some v ∷ xs) zero = is_null-scalar_of k v
sample_is_null-finish k (x ∷ xs) (suc i) = sample_is_null-finish k xs i

same_value : {A : Type 0} {v w : A} → some (some w) ≡ some (some v) → w ≡ v
same_value h = cc

pub sample_value-finish :
    (k : Kind) (xs : List (Option (Native k))) (i : ℕ) (v : Native k)
    → get_elem? xs i ≡ some (some v)
    → sample_value k (sample_finish k xs) i ≡ v
unfolding sample_value sample_finish cell_of
sample_value-finish k [] i v h = cc
sample_value-finish k (none ∷ xs) zero v h = cc
sample_value-finish k (some w ∷ xs) zero v h =
    ap (or_default k) (native_of-scalar_of k w) ∙ same_value h
sample_value-finish k (x ∷ xs) (suc i) v h = sample_value-finish k xs i v h

all_have : ℕ → List Column → Bool
all_have n [] = true
all_have n (c ∷ cs) = length c.cells == n && all_have n cs

all_have-All : (n : ℕ) (cs : List Column) → all_have n cs ≡ true → All (λ c. length c.cells ≡ n) cs
unfolding all_have
all_have-All n [] h = tt
all_have-All n (c ∷ cs) h = elim (Bool-cases (all_have n cs)) [
  | inl e ↦ (ground arith, all_have-All n cs e)
  | inr e ↦ absurd (ground arith)
]

All-all_have : (n : ℕ) (cs : List Column) → All (λ c. length c.cells ≡ n) cs → all_have n cs ≡ true
unfolding all_have
All-all_have n [] h = refl
All-all_have n (c ∷ cs) (e, h) = ground (arith, All-all_have n cs h)

unfoldable pub sample_try_new : List SampleField → List Column → Unit {0} ⊎ Batch
unfolding all_have
sample_try_new s [] = inl tt
sample_try_new s (c ∷ cs) =
    if all_have (length c.cells) (c ∷ cs)
    then inr (record { count = length c.cells; columns = c ∷ cs })
    else inl tt

made : {b c : Batch} → ◌≡◌ {A = Unit {0} ⊎ Batch} (inr b) (inr c) → b ≡ c
made h = cc

refused : {b : Batch} → ¬ (◌≡◌ {A = Unit {0} ⊎ Batch} (inl tt) (inr b))
refused h = cc

pub sample_columns-try_new :
    (s : List SampleField) (cs : List Column) (b : Batch)
    → sample_try_new s cs ≡ inr b
    → (b.columns ≡ cs) × All (λ c. length c.cells ≡ b.count) cs
unfolding sample_try_new
sample_columns-try_new s [] b h = cc
sample_columns-try_new s (c ∷ cs) b h = elim (Bool-cases (all_have (length c.cells) (c ∷ cs))) [
  | inl e ↦
      subst (λ (b : Batch). (b.columns ≡ c ∷ cs) × All (λ c. length c.cells ≡ b.count) (c ∷ cs))
        (made (rw e at h)) (refl, all_have-All (length c.cells) (c ∷ cs) e)
  | inr e ↦ absurd (refused (rw e at h))
]

pub sample_try_new-accepts :
    (s : List SampleField) (cs : List Column) (n : ℕ)
    → cs ≢ []
    → map (λ (c : Column). type_of c.kind) cs ≡ map (λ (f : SampleField). f.data_type) s
    → All (λ c. length c.cells ≡ n) cs
    → All (λ (f : SampleField). f.nullable ≡ true) s
    → (b : Batch) × (sample_try_new s cs ≡ inr b)
unfolding sample_try_new
sample_try_new-accepts s [] n ne t h u = absurd (ne refl)
sample_try_new-accepts s (c ∷ cs) n ne t h u =
    let same =
      All-all_have (length c.cells) (c ∷ cs)
        (subst (λ m. All (λ c. length c.cells ≡ m) (c ∷ cs)) (sym h.0) h) in
    (record { count = length c.cells; columns = c ∷ cs }, rw same refl)

instance abbrev pub sample_arrow : Arrow
sample_arrow = record {
  kind_of = sample_kind_of;
  kind_of-type_of = sample_kind_of-type_of;
  ArrayRef = Column;
  array_type = λ c. type_of c.kind;
  array_len = λ c. length c.cells;
  is_null_at = sample_is_null;
  value = sample_value;
  finish = sample_finish;
  array_type-finish = kind-sample_finish;
  array_len-finish = length-sample_finish;
  is_null_at-finish = sample_is_null-finish;
  value-finish = sample_value-finish;
  RecordBatch = Batch;
  num_rows = λ b. b.count;
  columns = λ b. b.columns;
  is_nullable = λ f. f.nullable;
  try_new = sample_try_new;
  columns-try_new = sample_columns-try_new;
  try_new-accepts = sample_try_new-accepts;
}
