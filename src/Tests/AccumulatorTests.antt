-- ===== src/Tests/AccumulatorTests.antt =====
-- SUM over small columns, and its theorem at a concrete input.
use fdapquery.Base.{◌≡◌, refl, Option, none, some, List, [], ◌∷◌, ◌++◌, map, ℤ}
use fdapquery.Errors.{ok, ◌>>=◌}
use fdapquery.Scalar.{null, int8, is_null}
use fdapquery.Accumulator.{Floats, accumulate_all, intermediate_value, merge}
use fdapquery.Accumulator.Merge.{IntegerType, nullable, column_sum, merge-accumulate_all}
use fdapquery.Tests.Sample.{sample}

instance abbrev floats : Floats
floats = record { add_f32 = λ x y. x; add_f64 = λ x y. x }

abbrev first_part : List (Option ℤ)
first_part = some (ℤ.pos 100) ∷ none ∷ some (ℤ.pos 27) ∷ []

abbrev second_part : List (Option ℤ)
second_part = some (ℤ.pos 2) ∷ []

-- The sum of 8-bit integers wraps.
sum_wraps :
    accumulate_all null (map (nullable IntegerType.i8) (first_part ++ second_part))
    ≡ ok (int8 (ℤ.negsuc 126))
unfolding accumulate_all is_null
sum_wraps = refl

merge-accumulate_all_example :
    (accumulate_all null (map (nullable IntegerType.i8) (first_part ++ second_part))
      ≡ ok (nullable IntegerType.i8 (column_sum IntegerType.i8 (first_part ++ second_part))))
    × ((do
      state ← accumulate_all null (map (nullable IntegerType.i8) first_part)
      other ← accumulate_all null (map (nullable IntegerType.i8) second_part)
      part ← intermediate_value other
      merge state part)
        ≡ accumulate_all null (map (nullable IntegerType.i8) (first_part ++ second_part)))
merge-accumulate_all_example = merge-accumulate_all IntegerType.i8 first_part second_part
