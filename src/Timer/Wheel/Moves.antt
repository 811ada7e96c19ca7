-- ===== src/Timer/Wheel/Moves.antt =====
-- Inserting an entry, and taking a slot down, in a wheel whose entries are where they belong.
use native.Mathlib.Decide.{ℕ_discrete}
use message_us_cld.Prelude.{
  ℕ, ◌+◌, ◌≡◌, ◌≢◌, refl, sym, ap₂, ◌∙◌, subst, arith, List, [], ◌∷◌, ◌++◌, sum_by, sum_by-append,
}
use message_us_cld.Timer.Wheel.{
  Entry, Location, Wheel, slot_at, set_slot, place, insert, erase, reinsert, cascade_slot,
}
use message_us_cld.Timer.Wheel.Slots.{
  IsShaped, InRange, slot_at-set_slot_self, slot_at-set_slot_ne, set_slot-IsShaped, total-set_slot,
  total,
}
use message_us_cld.Timer.Wheel.Cancel.{place-in_range}
use message_us_cld.Timer.Wheel.Placed.{Clock, Placed, All, All-append, All-map, AllPlaced}

-- At tick `j`, by the clock `c`.
pub record OnTime (j : ℕ) (c : Clock) (w : Wheel) : Type 0 where
  pub shaped : IsShaped w
  pub placed : AllPlaced c w
  pub now : w.jiffies ≡ j

same_location : {a b : Location} → a.level ≡ b.level → a.slot ≡ b.slot → a ≡ b
same_location e f = ap₂ (λ l s. record { level = l; slot = s }) e f

pub jiffies-set_slot :
    (w : Wheel) (loc : Location) (es : List Entry) → (set_slot w loc es).jiffies ≡ w.jiffies
unfolding set_slot
jiffies-set_slot w loc es = refl

-- What holds of every slot before, and of the new contents, holds of every slot after.
pub set_slot-placed :
    {w : Wheel}
    → IsShaped w
    → (P Q : Location → Entry → Type 0) (loc : Location) → InRange loc
    → (es : List Entry) → ((other : Location) → All (P other) (slot_at w other))
    → ((other : Location)
        → (loc.level ≡ other.level → loc.slot ≢ other.slot)
        → (e : Entry) → P other e
        → Q other e)
    → All (Q loc) es
    → (other : Location) → All (Q other) (slot_at (set_slot w loc es) other)
set_slot-placed {w} v P Q loc here es before keep new other =
    elim (ℕ_discrete loc.level other.level) [
      | no away ↦ elsewhere (λ e. absurd (away e))
      | yes level ↦ elim (ℕ_discrete loc.slot other.slot) [
        | no away ↦ elsewhere (λ e. away)
        | yes slot ↦
            subst (λ o. All (Q o) (slot_at (set_slot w loc es) o)) (same_location level slot)
              (subst (All (Q loc)) (sym (slot_at-set_slot_self v here es)) new)
      ]
    ]
  where
    elsewhere :
        (loc.level ≡ other.level → loc.slot ≢ other.slot)
        → All (Q other) (slot_at (set_slot w loc es) other)
    elsewhere ne =
        subst (All (Q other)) (sym (slot_at-set_slot_ne v here es other ne))
          (All-map (P other) (Q other) (slot_at w other) (keep other ne) (before other))

module _ (j : ℕ) (c : Clock) where
  -- The place that an entry would get now is one where it belongs.
  abbrev pub GoodAt : Entry → Type 0
  GoodAt e = Placed c (place j e.expiry_tick).level (place j e.expiry_tick).slot e.expiry_tick

  pub insert-OnTime : {w : Wheel} → OnTime j c w → (e : Entry) → GoodAt e → OnTime j c (insert w e)
  unfolding insert slot_at set_slot
  insert-OnTime {w} v e good = record {
    shaped = record { level_count = kept.level_count; slot_count = kept.slot_count };
    placed =
        set_slot-placed v.shaped (λ loc x. Placed c loc.level loc.slot x.expiry_tick)
          (λ loc x. Placed c loc.level loc.slot x.expiry_tick) home
          (place-in_range w.jiffies e.expiry_tick) (slot_at w home ++ (e ∷ [])) v.placed
          (λ other ne x p. p)
          (All-append (λ x. Placed c home.level home.slot x.expiry_tick) (slot_at w home) (e ∷ [])
            (v.placed home)
            (
              subst
                  (λ i.
                    Placed c (place i e.expiry_tick).level (place i e.expiry_tick).slot
                      e.expiry_tick)
                  (sym v.now) good,
              tt,
            ));
    now = v.now;
  }
    where
      home : Location
      home = place w.jiffies e.expiry_tick

      kept : IsShaped (set_slot w home (slot_at w home ++ (e ∷ [])))
      kept =
          set_slot-IsShaped v.shaped (place-in_range w.jiffies e.expiry_tick)
            (slot_at w home ++ (e ∷ []))

  pub total-insert :
      (weight : Entry → ℕ) {w : Wheel}
      → OnTime j c w
      → (e : Entry) → total weight (insert w e) ≡ total weight w + weight e
  unfolding insert
  total-insert weight {w} v e = omega (
    arith,
    total-set_slot v.shaped (place-in_range w.jiffies e.expiry_tick)
        (slot_at w (place w.jiffies e.expiry_tick) ++ (e ∷ [])) weight,
    sum_by-append weight (slot_at w (place w.jiffies e.expiry_tick)) (e ∷ []),
  )

  -- The bookkeeping of locations plays no part.
  pub entries-OnTime :
      {w : Wheel}
      → OnTime j c w
      → (es : List (ℕ × Location)) → OnTime j c (record w { entries = es })
  unfolding slot_at
  entries-OnTime v es = record {
    shaped = record { level_count = v.shaped.level_count; slot_count = v.shaped.slot_count };
    placed = v.placed;
    now = v.now;
  }

  pub reinsert-OnTime :
      (es : List Entry) {w : Wheel}
      → OnTime j c w
      → All GoodAt es
      → OnTime j c (reinsert es w)
        × ((weight : Entry → ℕ) → total weight (reinsert es w) ≡ total weight w + sum_by weight es)
  unfolding reinsert
  reinsert-OnTime [] v good = (v, λ weight. omega arith)
  reinsert-OnTime (e ∷ es) {w} v (good, goods) =
      let v' = entries-OnTime v (erase w.entries e.id) in
      let (kept, same) = reinsert-OnTime es (insert-OnTime v' e good) goods in
      (kept, λ weight. omega (arith, same weight, total-insert weight v' e))

-- Taking a slot down: the clock moves on from `c` to `d`.
pub cascade_slot-OnTime :
    (j : ℕ) (c d : Clock) {w : Wheel}
    → OnTime j c w
    → (loc : Location) → InRange loc
    → ((other : Location)
        → (loc.level ≡ other.level → loc.slot ≢ other.slot)
        → (expiry : ℕ) → Placed c other.level other.slot expiry
        → Placed d other.level other.slot expiry)
    → ((expiry : ℕ)
        → Placed c loc.level loc.slot expiry
        → Placed d (place j expiry).level (place j expiry).slot expiry)
    → OnTime j d (cascade_slot w loc)
      × ((weight : Entry → ℕ) → total weight (cascade_slot w loc) ≡ total weight w)
unfolding cascade_slot slot_at
cascade_slot-OnTime j c d {w} v loc here keep again = (
  record {
    shaped = record { level_count = kept.shaped.level_count; slot_count = kept.shaped.slot_count };
    placed = kept.placed;
    now = kept.now;
  },
  λ weight. omega (
    arith,
    (reinsert-OnTime j d (slot_at w loc) emptied goods).1 weight,
    total-set_slot v.shaped here [] weight,
  ),
)
  where
    emptied : OnTime j d (set_slot w loc [])
    emptied = record {
      shaped = set_slot-IsShaped v.shaped here [];
      placed =
          set_slot-placed v.shaped (λ l x. Placed c l.level l.slot x.expiry_tick)
            (λ l x. Placed d l.level l.slot x.expiry_tick) loc here [] v.placed
            (λ other ne x p. keep other ne x.expiry_tick p) tt;
      now = jiffies-set_slot w loc [] ∙ v.now;
    }

    goods : All (GoodAt j d) (slot_at w loc)
    goods =
        All-map (λ x. Placed c loc.level loc.slot x.expiry_tick) (GoodAt j d) (slot_at w loc)
          (λ x p. again x.expiry_tick p) (v.placed loc)

    kept : OnTime j d (reinsert (slot_at w loc) (set_slot w loc []))
    kept = (reinsert-OnTime j d (slot_at w loc) emptied goods).0
