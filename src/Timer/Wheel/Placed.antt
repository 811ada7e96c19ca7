-- ===== src/Timer/Wheel/Placed.antt =====
-- Where a timer stands, by its expiry tick: the arithmetic of the four levels.
use native.Mathlib.Decide.{dec_lt}
use message_us_cld.Prelude.{
  ℕ, zero, suc, ◌+◌, ◌-◌, ◌/◌, ◌%◌, ◌^◌, ◌≤◌, ◌<◌, ◌≡◌, sym, subst, arith, List, [], ◌∷◌, ◌++◌,
  word, sub64, bit_and, bit_and_mask,
}
use message_us_cld.Timer.Wheel.{Entry, Location, Wheel, place, slot_at}

-- How far a wheel has come: the first tick that is still to fire, and for each higher level the
-- number of the last slot that was taken down, counted from tick 0.
pub record Clock : Type 0 where
  pub first : ℕ
  pub down1 : ℕ
  pub down2 : ℕ
  pub down3 : ℕ

-- A timer in the lowest level is due within a turn; one in a higher level is in a slot still to come,
-- on the two middle levels within a turn.
abbrev pub Placed : Clock → ℕ → ℕ → ℕ → Type 0
Placed c zero slot expiry =
    (slot ≡ expiry % 256) × (c.first ≤ expiry) × (expiry < c.first + 256) × (expiry < word)
Placed c (suc zero) slot expiry =
    (slot ≡ expiry / 256 % 64)
    × (c.down1 < expiry / 256)
    × (expiry / 256 ≤ c.down1 + 64)
    × (expiry < word)
Placed c (suc (suc zero)) slot expiry =
    (slot ≡ expiry / 16384 % 64)
    × (c.down2 < expiry / 16384)
    × (expiry / 16384 ≤ c.down2 + 64)
    × (expiry < word)
Placed c (suc (suc (suc zero))) slot expiry =
    (slot ≡ expiry / 1048576 % 64) × (c.down3 < expiry / 1048576) × (expiry < word)
Placed c (suc (suc (suc (suc l)))) slot expiry = Unit {0}

module _ (j : ℕ) (c : Clock) (expiry : ℕ) (small : j < word) (fits : expiry < word)
    (later : j ≤ expiry) (lo : j ≤ c.first) (hi : c.first ≤ expiry) where
  remaining_eq : sub64 expiry j ≡ expiry - j
  remaining_eq = omega (arith, small, fits, later)

  placed1 :
      (256 ≤ expiry - j)
      → expiry - j < 16384
      → c.down1 ≡ j / 256
      → Placed c (place j expiry).level (place j expiry).slot expiry
  unfolding place
  placed1 g0 l1 up1 =
      let eq : place j expiry ≡ record { level = 1; slot = bit_and (expiry / 2 ^ 8) 63 } =
        ground (arith, remaining_eq, g0, l1) in
      subst (λ loc. Placed c loc.level loc.slot expiry) (sym eq)
        (
          bit_and_mask 6 (expiry / 256),
          omega (arith, up1, g0, later),
          omega (arith, up1, l1, later),
          fits,
        )

  placed2 :
      (16384 ≤ expiry - j)
      → expiry - j < 1048576
      → c.down2 ≡ j / 16384
      → Placed c (place j expiry).level (place j expiry).slot expiry
  unfolding place
  placed2 g1 l2 up2 =
      let eq : place j expiry ≡ record { level = 2; slot = bit_and (expiry / 2 ^ 14) 63 } =
        ground (arith, remaining_eq, g1, l2) in
      subst (λ loc. Placed c loc.level loc.slot expiry) (sym eq)
        (
          bit_and_mask 6 (expiry / 16384),
          omega (arith, up2, g1, later),
          omega (arith, up2, l2, later),
          fits,
        )

  placed3 :
      (1048576 ≤ expiry - j)
      → c.down3 ≡ j / 1048576
      → Placed c (place j expiry).level (place j expiry).slot expiry
  unfolding place
  placed3 g2 up3 =
      let eq : place j expiry ≡ record { level = 3; slot = bit_and (expiry / 2 ^ 20) 63 } =
        ground (arith, remaining_eq, g2) in
      subst (λ loc. Placed c loc.level loc.slot expiry) (sym eq)
        (bit_and_mask 6 (expiry / 1048576), omega (arith, up3, g2, later), fits)

  -- A timer is put where it belongs, if the levels above that it may go to are up to date.
  pub place-Placed :
      (256 ≤ expiry - j → c.down1 ≡ j / 256)
      → (16384 ≤ expiry - j → c.down2 ≡ j / 16384)
      → (1048576 ≤ expiry - j → c.down3 ≡ j / 1048576)
      → Placed c (place j expiry).level (place j expiry).slot expiry
  unfolding place
  place-Placed up1 up2 up3 = elim (dec_lt (expiry - j) 256) [
    | yes l0 ↦ ground (arith, remaining_eq, l0, bit_and_mask 8 expiry, fits, lo, hi)
    | no g0 ↦ elim (dec_lt (expiry - j) 16384) [
      | yes l1 ↦ placed1 (omega arith) l1 (up1 (omega arith))
      | no g1 ↦ elim (dec_lt (expiry - j) 1048576) [
        | yes l2 ↦ placed2 (omega arith) l2 (up2 (omega arith))
        | no g2 ↦ placed3 (omega arith) (up3 (omega arith))
      ]
    ]
  ]

-- Every entry of a list.
abbrev pub All : (Entry → Type 0) → List Entry → Type 0
All P [] = Unit {0}
All P (e ∷ es) = P e × All P es

pub All-append : (P : Entry → Type 0) (es fs : List Entry) → All P es → All P fs → All P (es ++ fs)
All-append P [] fs p q = q
All-append P (e ∷ es) fs (p, ps) q = (p, All-append P es fs ps q)

pub All-map :
    (P Q : Entry → Type 0) (es : List Entry) → ((e : Entry) → P e → Q e) → All P es → All Q es
All-map P Q [] f p = tt
All-map P Q (e ∷ es) f (p, ps) = (f e p, All-map P Q es f ps)

-- Every entry of a wheel is where the clock wants it.
abbrev pub AllPlaced : Clock → Wheel → Type 0
AllPlaced c w =
    (loc : Location) → All (λ e. Placed c loc.level loc.slot e.expiry_tick) (slot_at w loc)
