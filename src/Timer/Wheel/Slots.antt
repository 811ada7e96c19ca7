-- ===== src/Timer/Wheel/Slots.antt =====
-- The slots of a wheel as a store: reading what was put, and what a change leaves alone.
use native.Mathlib.Decide.{ℕ_discrete}
use message_us_cld.Prelude.{
  ℕ, ◌+◌, ◌<◌, ◌≡◌, ◌≢◌, sym, ap, ◌∙◌, arith, List, [], length, get_or, set, get_or-set_self,
  get_or-set_ne, length-set, sum_by, sum_by-set, sum_by-zero,
}
use message_us_cld.Timer.Wheel.{Entry, Location, Wheel, slot_counts, slot_at, set_slot}

-- The arrays have their slots.
pub record IsShaped (w : Wheel) : Type 0 where
  pub level_count : length w.levels ≡ 4
  pub slot_count : (l : ℕ) → l < 4 → length (get_or w.levels l []) ≡ get_or slot_counts l 0

abbrev pub InRange : Location → Type 0
InRange loc = (loc.level < 4) × (loc.slot < get_or slot_counts loc.level 0)

-- What is put into a slot that there is, is there.
pub slot_at-set_slot :
    (w : Wheel) (loc : Location) (es : List Entry)
    → loc.level < length w.levels
    → loc.slot < length (get_or w.levels loc.level [])
    → slot_at (set_slot w loc es) loc ≡ es
unfolding slot_at set_slot
slot_at-set_slot w loc es level slot =
    ap (λ ss. get_or ss loc.slot [])
      (get_or-set_self w.levels loc.level (set (get_or w.levels loc.level []) loc.slot es) [] level)
    ∙ get_or-set_self (get_or w.levels loc.level []) loc.slot es [] slot

module _ {w : Wheel} (v : IsShaped w) {loc : Location} (here : InRange loc) (es : List Entry) where
  level-lt : loc.level < length w.levels
  level-lt = omega (arith, v.level_count, here)

  slot-lt : loc.slot < length (get_or w.levels loc.level [])
  slot-lt = omega (arith, v.slot_count loc.level here.0, here)

  pub slot_at-set_slot_self : slot_at (set_slot w loc es) loc ≡ es
  slot_at-set_slot_self = slot_at-set_slot w loc es level-lt slot-lt

  -- Another slot is as it was.
  pub slot_at-set_slot_ne :
      (other : Location)
      → (loc.level ≡ other.level → loc.slot ≢ other.slot)
      → slot_at (set_slot w loc es) other ≡ slot_at w other
  unfolding slot_at set_slot
  slot_at-set_slot_ne other ne = elim (ℕ_discrete loc.level other.level) [
    | no away ↦
        ap (λ ss. get_or ss other.slot [])
          (get_or-set_ne w.levels loc.level other.level
            (set (get_or w.levels loc.level []) loc.slot es) [] away)
    | yes same ↦
        ap
          (λ l.
            get_or
              (get_or (set w.levels loc.level (set (get_or w.levels loc.level []) loc.slot es)) l
                [])
              other.slot [])
          (sym same)
        ∙ ap (λ ss. get_or ss other.slot [])
            (get_or-set_self w.levels loc.level (set (get_or w.levels loc.level []) loc.slot es) []
              level-lt)
        ∙ get_or-set_ne (get_or w.levels loc.level []) loc.slot other.slot es [] (ne same)
        ∙ ap (λ l. get_or (get_or w.levels l []) other.slot []) same
  ]

  pub set_slot-IsShaped : IsShaped (set_slot w loc es)
  unfolding set_slot
  set_slot-IsShaped = record {
    level_count =
        length-set w.levels loc.level (set (get_or w.levels loc.level []) loc.slot es)
        ∙ v.level_count;
    slot_count = counts;
  }
    where
      counts :
          (l : ℕ)
          → l < 4
          → length (
              get_or (set w.levels loc.level (set (get_or w.levels loc.level []) loc.slot es)) l [])
            ≡ get_or slot_counts l 0
      counts l lt = elim (ℕ_discrete loc.level l) [
        | no away ↦
            ap length (
              get_or-set_ne w.levels loc.level l (set (get_or w.levels loc.level []) loc.slot es) []
                away)
            ∙ v.slot_count l lt
        | yes same ↦
            ap
              (λ m. length (
                get_or (set w.levels loc.level (set (get_or w.levels loc.level []) loc.slot es)) m
                  []))
              (sym same)
            ∙ ap length (
                get_or-set_self w.levels loc.level (set (get_or w.levels loc.level []) loc.slot es)
                  [] level-lt)
            ∙ length-set (get_or w.levels loc.level []) loc.slot es
            ∙ v.slot_count loc.level here.0
            ∙ ap (λ m. get_or slot_counts m 0) same
      ]

  -- The entries of the whole wheel, weighed.
  pub total-set_slot :
      (weight : Entry → ℕ)
      → sum_by (sum_by (sum_by weight)) (set_slot w loc es).levels + sum_by weight (slot_at w loc)
        ≡ sum_by (sum_by (sum_by weight)) w.levels + sum_by weight es
  unfolding set_slot slot_at
  total-set_slot weight = omega (
    arith,
    sum_by-set (sum_by (sum_by weight)) w.levels loc.level
        (set (get_or w.levels loc.level []) loc.slot es) [] level-lt,
    sum_by-set (sum_by weight) (get_or w.levels loc.level []) loc.slot es [] slot-lt,
  )

-- The weight of all entries of a wheel.
abbrev pub total : (Entry → ℕ) → Wheel → ℕ
total weight w = sum_by (sum_by (sum_by weight)) w.levels

-- A wheel in which every slot weighs nothing weighs nothing.
pub total-zero :
    (weight : Entry → ℕ) (w : Wheel)
    → ((loc : Location) → sum_by weight (slot_at w loc) ≡ 0)
    → total weight w ≡ 0
unfolding slot_at
total-zero weight w none = sum_by-zero (sum_by (sum_by weight)) w.levels [] (λ l.
    sum_by-zero (sum_by weight) (get_or w.levels l []) []
      (λ s. none (record { level = l; slot = s })))
