-- ===== src/Metrics/Moments.antt =====
-- fdapquery-physical-plan/src/metrics.rs: `Timestamp::update_to_min` and `Timestamp::update_to_max`
-- over several partitions.
use fdapquery.Base.{
  ◌≡◌, refl, sym, ap, subst, ◌⊎◌, inl, inr, Option, none, some, true, false, if◌then◌else◌, arith,
  Bool-cases,
}
use fdapquery.Metrics.Timestamp.{Chrono, Timestamp, min_of, max_of, update_to_min, update_to_max}

module _ ⦃chrono : Chrono⦄ where
  before_irreflexive : (a : chrono.DateTime) → ¬ (chrono.before a a ≡ true)
  before_irreflexive a h = ground (arith, chrono.before_irrefl a)

  before_negative :
      (a b c : chrono.DateTime)
      → chrono.before a b ≡ false
      → chrono.before b c ≡ false
      → chrono.before a c ≡ false
  before_negative a b c h k = elim (Bool-cases (chrono.before a c)) [
    | inr f ↦ f
    | inl ac ↦ elim (Bool-cases (chrono.before b a)) [
      | inl ba ↦ ground (arith, chrono.before_trans b a c ba ac)
      | inr ba ↦ subst (λ x. chrono.before x c ≡ false) (chrono.before_total b a ba h) k
    ]
  ]

  earlier : chrono.DateTime → chrono.DateTime → chrono.DateTime
  earlier a b = if chrono.before a b then a else b

  later : chrono.DateTime → chrono.DateTime → chrono.DateTime
  later a b = if chrono.before a b then b else a

  before_asym : (a b : chrono.DateTime) → chrono.before a b ≡ true → chrono.before b a ≡ false
  before_asym a b h = elim (Bool-cases (chrono.before b a)) [
    | inl t ↦ absurd (before_irreflexive a (chrono.before_trans a b a h t))
    | inr f ↦ f
  ]

  earlier_comm : (a b : chrono.DateTime) → earlier a b ≡ earlier b a
  unfolding earlier
  earlier_comm a b = elim (Bool-cases (chrono.before a b)) [
    | inl t ↦ rw (t, before_asym a b t) refl
    | inr f ↦ elim (Bool-cases (chrono.before b a)) [
      | inl t ↦ rw (f, t) refl
      | inr g ↦ rw (f, g) (sym (chrono.before_total a b f g))
    ]
  ]

  later_comm : (a b : chrono.DateTime) → later a b ≡ later b a
  unfolding later
  later_comm a b = elim (Bool-cases (chrono.before a b)) [
    | inl t ↦ rw (t, before_asym a b t) refl
    | inr f ↦ elim (Bool-cases (chrono.before b a)) [
      | inl t ↦ rw (f, t) refl
      | inr g ↦ rw (f, g) (chrono.before_total a b f g)
    ]
  ]

  earlier_assoc : (a b c : chrono.DateTime) → earlier (earlier a b) c ≡ earlier a (earlier b c)
  unfolding earlier
  earlier_assoc a b c = elim (Bool-cases (chrono.before a b)) [
    | inl ab ↦ elim (Bool-cases (chrono.before b c)) [
      | inl bc ↦ rw (ab, bc, ab, chrono.before_trans a b c ab bc) refl
      | inr bc ↦ rw (ab, bc) refl
    ]
    | inr ab ↦ elim (Bool-cases (chrono.before b c)) [
      | inl bc ↦ rw (ab, bc, ab) refl
      | inr bc ↦ rw (ab, bc, before_negative a b c ab bc) refl
    ]
  ]

  later_assoc : (a b c : chrono.DateTime) → later (later a b) c ≡ later a (later b c)
  unfolding later
  later_assoc a b c = elim (Bool-cases (chrono.before a b)) [
    | inl ab ↦ elim (Bool-cases (chrono.before b c)) [
      | inl bc ↦ rw (ab, bc, chrono.before_trans a b c ab bc) refl
      | inr bc ↦ rw (ab, bc, ab) refl
    ]
    | inr ab ↦ elim (Bool-cases (chrono.before b c)) [
      | inl bc ↦ rw (ab, bc) refl
      | inr bc ↦ rw (ab, bc, ab, before_negative a b c ab bc) refl
    ]
  ]

  min_of_comm : (o p : Option chrono.DateTime) → min_of o p ≡ min_of p o
  unfolding earlier
  min_of_comm none none = refl
  min_of_comm none (some b) = refl
  min_of_comm (some a) none = refl
  min_of_comm (some a) (some b) = ap some (earlier_comm a b)

  max_of_comm : (o p : Option chrono.DateTime) → max_of o p ≡ max_of p o
  unfolding later
  max_of_comm none none = refl
  max_of_comm none (some b) = refl
  max_of_comm (some a) none = refl
  max_of_comm (some a) (some b) = ap some (later_comm a b)

  min_of_assoc : (o p q : Option chrono.DateTime) → min_of (min_of o p) q ≡ min_of o (min_of p q)
  unfolding earlier
  min_of_assoc none none none = refl
  min_of_assoc none none (some c) = refl
  min_of_assoc none (some b) none = refl
  min_of_assoc none (some b) (some c) = refl
  min_of_assoc (some a) none none = refl
  min_of_assoc (some a) none (some c) = refl
  min_of_assoc (some a) (some b) none = refl
  min_of_assoc (some a) (some b) (some c) = ap some (earlier_assoc a b c)

  max_of_assoc : (o p q : Option chrono.DateTime) → max_of (max_of o p) q ≡ max_of o (max_of p q)
  unfolding later
  max_of_assoc none none none = refl
  max_of_assoc none none (some c) = refl
  max_of_assoc none (some b) none = refl
  max_of_assoc none (some b) (some c) = refl
  max_of_assoc (some a) none none = refl
  max_of_assoc (some a) none (some c) = refl
  max_of_assoc (some a) (some b) none = refl
  max_of_assoc (some a) (some b) (some c) = ap some (later_assoc a b c)

  abbrev at_moment : Option chrono.DateTime → Timestamp
  at_moment o = record { timestamp = o }

  -- The first moment is recorded where the second one is, and it is not after it.
  abbrev pub NotAfter : Option chrono.DateTime → Option chrono.DateTime → Type 0
  NotAfter r none = Unit
  NotAfter none (some a) = ⊥
  NotAfter (some r) (some a) = chrono.before a r ≡ false

  -- The first moment is recorded where the second one is, and it is not before it.
  abbrev pub NotBefore : Option chrono.DateTime → Option chrono.DateTime → Type 0
  NotBefore r none = Unit
  NotBefore none (some a) = ⊥
  NotBefore (some r) (some a) = chrono.before r a ≡ false

  -- Which of two moments, recorded or not, is kept as the earliest, and as the latest.
  abbrev pub Earliest :
      Option chrono.DateTime → Option chrono.DateTime → Option chrono.DateTime → Type 0
  Earliest o p r = ((r ≡ o) ⊎ (r ≡ p)) × NotAfter r o × NotAfter r p

  abbrev pub Latest :
      Option chrono.DateTime → Option chrono.DateTime → Option chrono.DateTime → Type 0
  Latest o p r = ((r ≡ o) ⊎ (r ≡ p)) × NotBefore r o × NotBefore r p

  min_of-Earliest : (o p : Option chrono.DateTime) → Earliest o p (min_of o p)
  min_of-Earliest none none = (inl refl, tt, tt)
  min_of-Earliest none (some b) = (inr refl, tt, chrono.before_irrefl b)
  min_of-Earliest (some a) none = (inl refl, chrono.before_irrefl a, tt)
  min_of-Earliest (some a) (some b) = elim (Bool-cases (chrono.before a b)) [
    | inl t ↦ rw t (inl refl, chrono.before_irrefl a, before_asym a b t)
    | inr f ↦ rw f (inr refl, f, chrono.before_irrefl b)
  ]

  max_of-Latest : (o p : Option chrono.DateTime) → Latest o p (max_of o p)
  max_of-Latest none none = (inl refl, tt, tt)
  max_of-Latest none (some b) = (inr refl, tt, chrono.before_irrefl b)
  max_of-Latest (some a) none = (inl refl, chrono.before_irrefl a, tt)
  max_of-Latest (some a) (some b) = elim (Bool-cases (chrono.before a b)) [
    | inl t ↦ rw t (inr refl, before_asym a b t, chrono.before_irrefl b)
    | inr f ↦ rw f (inl refl, chrono.before_irrefl a, f)
  ]

  -- `update_to_min` keeps the earlier of the recorded moments and `update_to_max` the later one: one
  -- of the two, and none where neither is recorded. Over several partitions they give the same in
  -- whatever order and grouping the partitions are taken.
  pub update_order_free :
      (s t u : Timestamp)
      → Earliest s.timestamp t.timestamp (update_to_min s t).timestamp
        × Latest s.timestamp t.timestamp (update_to_max s t).timestamp
        × (update_to_min s t ≡ update_to_min t s)
        × (update_to_min (update_to_min s t) u ≡ update_to_min s (update_to_min t u))
        × (update_to_max s t ≡ update_to_max t s)
        × (update_to_max (update_to_max s t) u ≡ update_to_max s (update_to_max t u))
  unfolding update_to_min update_to_max
  update_order_free s t u = (
    min_of-Earliest s.timestamp t.timestamp,
    max_of-Latest s.timestamp t.timestamp,
    ap at_moment (min_of_comm s.timestamp t.timestamp),
    ap at_moment (min_of_assoc s.timestamp t.timestamp u.timestamp),
    ap at_moment (max_of_comm s.timestamp t.timestamp),
    ap at_moment (max_of_assoc s.timestamp t.timestamp u.timestamp),
  )
