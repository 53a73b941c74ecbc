-- ===== src/Scalar.antt =====
-- fdapquery-common/src/scalar_value.rs: the value of a literal, its arrow type and its text.
pub mod Arrays
pub mod Builder
use fdapquery.Base.{
  ℕ, String, Bool, true, false, none, some, List, [], ◌∷◌, map, ℤ, decimal, decimal_ℤ, concat, join,
}
use fdapquery.External.{External}

module _ ⦃ext : External⦄ where
  pub data ScalarValue : Type 0 where
    null : ScalarValue
    boolean : Bool → ScalarValue
    int8 int16 int32 int64 : ℤ → ScalarValue
    uint8 uint16 uint32 uint64 : ℕ → ScalarValue
    float32 : ext.F32 → ScalarValue
    float64 : ext.F64 → ScalarValue
    utf8 : String → ScalarValue
    binary : List ℕ → ScalarValue
    date32 : ℤ → ScalarValue

  unfoldable pub data_type : ScalarValue → ext.DataType
  data_type null = ext.null
  data_type (boolean _) = ext.boolean
  data_type (int8 _) = ext.int8
  data_type (int16 _) = ext.int16
  data_type (int32 _) = ext.int32
  data_type (int64 _) = ext.int64
  data_type (uint8 _) = ext.uint8
  data_type (uint16 _) = ext.uint16
  data_type (uint32 _) = ext.uint32
  data_type (uint64 _) = ext.uint64
  data_type (float32 _) = ext.float32
  data_type (float64 _) = ext.float64
  data_type (utf8 _) = ext.utf8
  data_type (binary _) = ext.binary
  data_type (date32 _) = ext.date32

  unfoldable pub is_null : ScalarValue → Bool
  is_null null = true
  is_null _ = false

  bool_text : Bool → String
  bool_text true = "true"
  bool_text false = "false"

  -- `{:?}` of a `Vec<u8>`.
  debug_bytes : List ℕ → String
  debug_bytes bytes = concat ("[" ∷ join ", " (map decimal bytes) ∷ "]" ∷ [])

  -- `Display`. A date out of chrono's range is shown by its number of days.
  unfoldable pub to_string : ScalarValue → String
  unfolding bool_text debug_bytes
  to_string null = "NULL"
  to_string (boolean b) = bool_text b
  to_string (int8 n) = decimal_ℤ n
  to_string (int16 n) = decimal_ℤ n
  to_string (int32 n) = decimal_ℤ n
  to_string (int64 n) = decimal_ℤ n
  to_string (uint8 n) = decimal n
  to_string (uint16 n) = decimal n
  to_string (uint32 n) = decimal n
  to_string (uint64 n) = decimal n
  to_string (float32 x) = ext.display_f32 x
  to_string (float64 x) = ext.display_f64 x
  to_string (utf8 s) = s
  to_string (binary b) = debug_bytes b
  to_string (date32 d) = elim (ext.display_date d) [ none ↦ decimal_ℤ d | some s ↦ s ]
