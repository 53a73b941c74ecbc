-- ===== src/Metrics/Timestamp.antt =====
-- `Timestamp` of fdapquery-physical-plan/src/metrics.rs: an optional moment of the wall clock.
use fdapquery.Base.{◌≡◌, Bool, true, false, Option, none, some, ℤ, if◌then◌else◌}

-- chrono's `DateTime<Utc>`: moments in a strict total order, and `timestamp_nanos_opt`.
pub record Chrono : Type 1 where
  pub DateTime : Type 0
  pub before : DateTime → DateTime → Bool
  pub timestamp_nanos_opt : DateTime → Option ℤ
  pub before_irrefl : (a : DateTime) → before a a ≡ false
  pub before_trans : (a b c : DateTime) → before a b ≡ true → before b c ≡ true → before a c ≡ true
  pub before_total : (a b : DateTime) → before a b ≡ false → before b a ≡ false → a ≡ b

module _ ⦃chrono : Chrono⦄ where
  pub record Timestamp : Type 0 where
    pub timestamp : Option chrono.DateTime

  unfoldable pub empty : Timestamp
  empty = record { timestamp = none }

  unfoldable pub set : Timestamp → chrono.DateTime → Timestamp
  set t now = record { timestamp = some now }

  abbrev pub min_of : Option chrono.DateTime → Option chrono.DateTime → Option chrono.DateTime
  min_of none none = none
  min_of (some v) none = some v
  min_of none (some v) = some v
  min_of (some v1) (some v2) = some (if chrono.before v1 v2 then v1 else v2)

  abbrev pub max_of : Option chrono.DateTime → Option chrono.DateTime → Option chrono.DateTime
  max_of none none = none
  max_of (some v) none = some v
  max_of none (some v) = some v
  max_of (some v1) (some v2) = some (if chrono.before v1 v2 then v2 else v1)

  unfoldable pub update_to_min : Timestamp → Timestamp → Timestamp
  update_to_min t other = record { timestamp = min_of t.timestamp other.timestamp }

  unfoldable pub update_to_max : Timestamp → Timestamp → Timestamp
  update_to_max t other = record { timestamp = max_of t.timestamp other.timestamp }
