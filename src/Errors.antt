-- ===== src/Errors.antt =====
-- fdapquery-common/src/error.rs: the error type that every crate shares, and `Result`. A body that
-- panics is a third outcome. `Debug` texts of expressions inside a message are left out.
use fdapquery.Base.{String, ◌≡◌, refl, Option, none, some, List, [], ◌∷◌, ◌⊎◌, inl, inr}
use fdapquery.External.{External}

module _ ⦃ext : External⦄ where
  pub data FdapQueryError : Type 0 where
    arrow_error : ext.ArrowError → FdapQueryError
    parquet_error : ext.ParquetError → FdapQueryError
    io_error : ext.IoError → FdapQueryError
    sql_parse plan schema_error execution not_implemented internal : String → FdapQueryError
    resources_exhausted : String → FdapQueryError
    external : ext.OtherError → FdapQueryError
    with_context : FdapQueryError → String → FdapQueryError

  -- `e.context(message)`.
  pub context : FdapQueryError → String → FdapQueryError
  context e message = with_context e message

  pub data Outcome (A : Type 0) : Type 0 where
    ok : A → Outcome A
    err : FdapQueryError → Outcome A
    panic : String → Outcome A

  -- Rust's `?`.
  infixl 5 ◌>>=◌
  abbrev pub ◌>>=◌ : {A B : Type 0} → Outcome A → (A → Outcome B) → Outcome B
  ok a >>= f = f a
  err e >>= f = err e
  panic m >>= f = panic m

  -- `?` on an arrow result, by `From<ArrowError>`.
  abbrev pub from_arrow : {A : Type 0} → ext.ArrowError ⊎ A → Outcome A
  from_arrow (inl e) = err (arrow_error e)
  from_arrow (inr a) = ok a

  abbrev pub ok_or : {A : Type 0} → Option A → FdapQueryError → Outcome A
  ok_or none e = err e
  ok_or (some a) e = ok a

  -- `.map(f).collect::<Result<Vec<_>>>()`: the first failure ends it.
  unfoldable pub traverse : {A B : Type 0} → (A → Outcome B) → List A → Outcome (List B)
  traverse f [] = ok []
  traverse f (x ∷ xs) = do b ← f x; bs ← traverse f xs; ok (b ∷ bs)

  pub bind-eq-ok :
      {A B : Type 0} (m : Outcome A) (f : A → Outcome B) {b : B}
      → (m >>= f) ≡ ok b
      → (a : A) × (m ≡ ok a) × (f a ≡ ok b)
  bind-eq-ok (ok a) f h = (a, refl, h)
  bind-eq-ok (err e) f h = cc
  bind-eq-ok (panic e) f h = cc

  pub ok-injective : {A : Type 0} {a b : A} → ok a ≡ ok b → a ≡ b
  ok-injective h = cc
