-- ===== src/Timer/Wheel/Cascade.antt =====
-- The cascades of a tick bring every entry where it belongs at the new tick, and lose none.
use message_us_cld.Prelude.{
  ℕ, zero, suc, ◌-◌, ◌/◌, ◌%◌, ◌^◌, ◌≤◌, ◌<◌, ◌≡◌, ◌≢◌, refl, sym, ◌∙◌, subst, arith, word, bit_and,
  bit_and_mask,
}
use message_us_cld.Timer.Wheel.{Entry, Wheel, place, cascade_slot, current, cascade}
use message_us_cld.Timer.Wheel.Slots.{total}
use message_us_cld.Timer.Wheel.Cancel.{mask-lt}
use message_us_cld.Timer.Wheel.Placed.{Clock, Placed, place-Placed}
use message_us_cld.Timer.Wheel.Moves.{OnTime, cascade_slot-OnTime}

abbrev pub clock : ℕ → ℕ → ℕ → ℕ → Clock
clock j d1 d2 d3 = record { first = j; down1 = d1; down2 = d2; down3 = d3 }

-- Level 1 moves on by one slot, at a tick that 256 divides.
module _ (j d2 d3 : ℕ) (pos : 0 < j) (small : j < word) (turn : j % 256 ≡ 0) where
  keep1 :
      (level slot expiry : ℕ)
      → (1 ≡ level → bit_and (j / 2 ^ 8) 63 ≢ slot)
      → Placed (clock j ((j - 1) / 256) d2 d3) level slot expiry
      → Placed (clock j (j / 256) d2 d3) level slot expiry
  keep1 zero slot expiry ne p = p
  keep1 (suc zero) slot expiry ne p =
      let away : j / 256 % 64 ≢ slot = λ e. ne refl (bit_and_mask 6 (j / 256) ∙ e) in
      (p.0, omega (arith, p, away, pos, turn), omega (arith, p, pos, turn), p.3)
  keep1 (suc (suc zero)) slot expiry ne p = p
  keep1 (suc (suc (suc zero))) slot expiry ne p = p
  keep1 (suc (suc (suc (suc level)))) slot expiry ne p = tt

  again1 :
      (expiry : ℕ)
      → Placed (clock j ((j - 1) / 256) d2 d3) 1 (bit_and (j / 2 ^ 8) 63) expiry
      → Placed (clock j (j / 256) d2 d3) (place j expiry).level (place j expiry).slot expiry
  again1 expiry p =
      let same : expiry / 256 ≡ j / 256 = omega (arith, p, pos, turn, bit_and_mask 6 (j / 256)) in
      place-Placed j (clock j (j / 256) d2 d3) expiry small p.3 (omega (arith, same, turn))
        (omega arith) (omega (arith, same, turn)) (λ far. refl)
        (λ far. absurd (omega (arith, same, turn, far)))
        (λ far. absurd (omega (arith, same, turn, far)))

  pub cascade1 :
      {w : Wheel}
      → OnTime j (clock j ((j - 1) / 256) d2 d3) w
      → OnTime j (clock j (j / 256) d2 d3) (cascade w 1)
        × ((weight : Entry → ℕ) → total weight (cascade w 1) ≡ total weight w)
  unfolding cascade current
  cascade1 {w} v =
      subst
        (λ i.
          OnTime j (clock j (j / 256) d2 d3)
            (cascade_slot w (record { level = 1; slot = bit_and (i / 2 ^ 8) 63 }))
          × ((weight : Entry → ℕ)
              → total weight (cascade_slot w (record { level = 1; slot = bit_and (i / 2 ^ 8) 63 }))
                ≡ total weight w))
        (sym v.now)
        (cascade_slot-OnTime j (clock j ((j - 1) / 256) d2 d3) (clock j (j / 256) d2 d3) v
          (record { level = 1; slot = bit_and (j / 2 ^ 8) 63 }) (omega arith, mask-lt 6 (j / 2 ^ 8))
          (λ other ne expiry p. keep1 other.level other.slot expiry ne p) again1)

-- Level 2, at a tick that 16384 divides.
module _ (j d3 : ℕ) (pos : 0 < j) (small : j < word) (turn : j % 16384 ≡ 0) where
  keep2 :
      (level slot expiry : ℕ)
      → (2 ≡ level → bit_and (j / 2 ^ 14) 63 ≢ slot)
      → Placed (clock j (j / 256) ((j - 1) / 16384) d3) level slot expiry
      → Placed (clock j (j / 256) (j / 16384) d3) level slot expiry
  keep2 zero slot expiry ne p = p
  keep2 (suc zero) slot expiry ne p = p
  keep2 (suc (suc zero)) slot expiry ne p =
      let away : j / 16384 % 64 ≢ slot = λ e. ne refl (bit_and_mask 6 (j / 16384) ∙ e) in
      (p.0, omega (arith, p, away, pos, turn), omega (arith, p, pos, turn), p.3)
  keep2 (suc (suc (suc zero))) slot expiry ne p = p
  keep2 (suc (suc (suc (suc level)))) slot expiry ne p = tt

  again2 :
      (expiry : ℕ)
      → Placed (clock j (j / 256) ((j - 1) / 16384) d3) 2 (bit_and (j / 2 ^ 14) 63) expiry
      → Placed
          (clock j (j / 256) (j / 16384) d3)
          (place j expiry).level
          (place j expiry).slot
          expiry
  again2 expiry p =
      let same : expiry / 16384 ≡ j / 16384 =
        omega (arith, p, pos, turn, bit_and_mask 6 (j / 16384)) in
      place-Placed j (clock j (j / 256) (j / 16384) d3) expiry small p.3 (omega (arith, same, turn))
        (omega arith) (omega (arith, same, turn)) (λ far. refl) (λ far. refl)
        (λ far. absurd (omega (arith, same, turn, far)))

  pub cascade2 :
      {w : Wheel}
      → OnTime j (clock j (j / 256) ((j - 1) / 16384) d3) w
      → OnTime j (clock j (j / 256) (j / 16384) d3) (cascade w 2)
        × ((weight : Entry → ℕ) → total weight (cascade w 2) ≡ total weight w)
  unfolding cascade current
  cascade2 {w} v =
      subst
        (λ i.
          OnTime j (clock j (j / 256) (j / 16384) d3)
            (cascade_slot w (record { level = 2; slot = bit_and (i / 2 ^ 14) 63 }))
          × ((weight : Entry → ℕ)
              → total weight (cascade_slot w (record { level = 2; slot = bit_and (i / 2 ^ 14) 63 }))
                ≡ total weight w))
        (sym v.now)
        (cascade_slot-OnTime j (clock j (j / 256) ((j - 1) / 16384) d3)
          (clock j (j / 256) (j / 16384) d3) v
          (record { level = 2; slot = bit_and (j / 2 ^ 14) 63 })
          (omega arith, mask-lt 6 (j / 2 ^ 14))
          (λ other ne expiry p. keep2 other.level other.slot expiry ne p) again2)

-- Level 3, at a tick that 2^20 divides. A timer that is more than a turn away goes back to its slot.
module _ (j : ℕ) (pos : 0 < j) (small : j < word) (turn : j % 1048576 ≡ 0) where
  keep3 :
      (level slot expiry : ℕ)
      → (3 ≡ level → bit_and (j / 2 ^ 20) 63 ≢ slot)
      → Placed (clock j (j / 256) (j / 16384) ((j - 1) / 1048576)) level slot expiry
      → Placed (clock j (j / 256) (j / 16384) (j / 1048576)) level slot expiry
  keep3 zero slot expiry ne p = p
  keep3 (suc zero) slot expiry ne p = p
  keep3 (suc (suc zero)) slot expiry ne p = p
  keep3 (suc (suc (suc zero))) slot expiry ne p =
      let away : j / 1048576 % 64 ≢ slot = λ e. ne refl (bit_and_mask 6 (j / 1048576) ∙ e) in
      (p.0, omega (arith, p, away, pos, turn), p.2)
  keep3 (suc (suc (suc (suc level)))) slot expiry ne p = tt

  again3 :
      (expiry : ℕ)
      → Placed
          (clock j (j / 256) (j / 16384) ((j - 1) / 1048576))
          3
          (bit_and (j / 2 ^ 20) 63)
          expiry
      → Placed
          (clock j (j / 256) (j / 16384) (j / 1048576))
          (place j expiry).level
          (place j expiry).slot
          expiry
  again3 expiry p =
      let later : j / 1048576 ≤ expiry / 1048576 = omega (arith, p, pos, turn) in
      place-Placed j (clock j (j / 256) (j / 16384) (j / 1048576)) expiry small p.2
        (omega (arith, later, turn)) (omega arith) (omega (arith, later, turn)) (λ far. refl)
        (λ far. refl) (λ far. refl)

  pub cascade3 :
      {w : Wheel}
      → OnTime j (clock j (j / 256) (j / 16384) ((j - 1) / 1048576)) w
      → OnTime j (clock j (j / 256) (j / 16384) (j / 1048576)) (cascade w 3)
        × ((weight : Entry → ℕ) → total weight (cascade w 3) ≡ total weight w)
  unfolding cascade current
  cascade3 {w} v =
      subst
        (λ i.
          OnTime j (clock j (j / 256) (j / 16384) (j / 1048576))
            (cascade_slot w (record { level = 3; slot = bit_and (i / 2 ^ 20) 63 }))
          × ((weight : Entry → ℕ)
              → total weight (cascade_slot w (record { level = 3; slot = bit_and (i / 2 ^ 20) 63 }))
                ≡ total weight w))
        (sym v.now)
        (cascade_slot-OnTime j (clock j (j / 256) (j / 16384) ((j - 1) / 1048576))
          (clock j (j / 256) (j / 16384) (j / 1048576)) v
          (record { level = 3; slot = bit_and (j / 2 ^ 20) 63 })
          (omega arith, mask-lt 6 (j / 2 ^ 20))
          (λ other ne expiry p. keep3 other.level other.slot expiry ne p) again3)
