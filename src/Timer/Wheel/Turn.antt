-- ===== src/Timer/Wheel/Turn.antt =====
-- All cascades of a tick together.
use native.Mathlib.Decide.{ℕ_discrete}
use message_us_cld.Prelude.{
  ℕ, ◌-◌, ◌/◌, ◌%◌, ◌<◌, ◌≡◌, ◌≢◌, refl, ap, ◌∙◌, subst, arith, word, bit_and, bit_and_mask,
}
use message_us_cld.Timer.Wheel.{Entry, Wheel, cascade, cascades}
use message_us_cld.Timer.Wheel.Slots.{total}
use message_us_cld.Timer.Wheel.Placed.{Clock}
use message_us_cld.Timer.Wheel.Moves.{OnTime}
use message_us_cld.Timer.Wheel.Cascade.{clock, cascade1, cascade2, cascade3}

-- At tick `j`, nothing taken down yet, and everything.
abbrev pub before : ℕ → Clock
before j = clock j ((j - 1) / 256) ((j - 1) / 16384) ((j - 1) / 1048576)

abbrev pub after : ℕ → Clock
after j = clock j (j / 256) (j / 16384) (j / 1048576)

abbrev Done : ℕ → Wheel → Wheel → Type 0
Done j w w' = OnTime j (after j) w' × ((weight : Entry → ℕ) → total weight w' ≡ total weight w)

module _ (j : ℕ) (pos : 0 < j) (small : j < word) {w : Wheel} (v : OnTime j (before j) w) where
  none_due : j % 256 ≢ 0 → Done j w w
  none_due ne = (subst (λ c. OnTime j c w) same v, λ weight. refl)
    where
      e1 : (j - 1) / 256 ≡ j / 256
      e1 = omega (arith, ne, pos)

      e2 : (j - 1) / 16384 ≡ j / 16384
      e2 = omega (arith, ne, pos)

      e3 : (j - 1) / 1048576 ≡ j / 1048576
      e3 = omega (arith, ne, pos)

      same : before j ≡ after j
      same = cc (e1, e2, e3)

  one_due : j % 256 ≡ 0 → j % 16384 ≢ 0 → Done j w (cascade w 1)
  one_due turn ne =
      let (kept, same) = cascade1 j ((j - 1) / 16384) ((j - 1) / 1048576) pos small turn v in
      (subst (λ c. OnTime j c (cascade w 1)) eq kept, same)
    where
      e2 : (j - 1) / 16384 ≡ j / 16384
      e2 = omega (arith, ne, pos)

      e3 : (j - 1) / 1048576 ≡ j / 1048576
      e3 = omega (arith, ne, pos)

      eq : clock j (j / 256) ((j - 1) / 16384) ((j - 1) / 1048576) ≡ after j
      eq = cc (e2, e3)

  two_due : j % 16384 ≡ 0 → j % 1048576 ≢ 0 → Done j w (cascade (cascade w 1) 2)
  two_due turn ne =
      let (kept, same) =
        cascade1 j ((j - 1) / 16384) ((j - 1) / 1048576) pos small (omega arith) v in
      let (kept2, same2) = cascade2 j ((j - 1) / 1048576) pos small turn kept in
      (
        subst (λ c. OnTime j c (cascade (cascade w 1) 2)) eq kept2,
        λ weight. same2 weight ∙ same weight,
      )
    where
      e3 : (j - 1) / 1048576 ≡ j / 1048576
      e3 = omega (arith, ne, pos)

      eq : clock j (j / 256) (j / 16384) ((j - 1) / 1048576) ≡ after j
      eq = cc (e3)

  three_due : j % 1048576 ≡ 0 → Done j w (cascade (cascade (cascade w 1) 2) 3)
  three_due turn =
      let (kept, same) =
        cascade1 j ((j - 1) / 16384) ((j - 1) / 1048576) pos small (omega arith) v in
      let (kept2, same2) = cascade2 j ((j - 1) / 1048576) pos small (omega arith) kept in
      let (kept3, same3) = cascade3 j pos small turn kept2 in
      (kept3, λ weight. same3 weight ∙ same2 weight ∙ same weight)

  pub cascades-OnTime : Done j w (cascades w)
  unfolding cascades
  cascades-OnTime = elim (ℕ_discrete (j % 256) 0) [
    | no ne ↦ subst (Done j w) (let e = m8 in ground (arith, ne, e)) (none_due ne)
    | yes t1 ↦ elim (ℕ_discrete (j % 16384) 0) [
      | no ne ↦
          subst (Done j w) (let e = m8 in let f = m14 in ground (arith, t1, ne, e, f))
            (one_due t1 ne)
      | yes t2 ↦ elim (ℕ_discrete (j % 1048576) 0) [
        | no ne ↦
            subst (Done j w)
              (let e = m8 in let f = m14 in let g = m20 in ground (arith, t1, t2, ne, e, f, g))
              (two_due t2 ne)
        | yes t3 ↦
            subst (Done j w)
              (let e = m8 in let f = m14 in let g = m20 in ground (arith, t1, t2, t3, e, f, g))
              (three_due t3)
      ]
    ]
  ]
    where
      m8 : bit_and w.jiffies 255 ≡ j % 256
      m8 = ap (λ i. bit_and i 255) v.now ∙ bit_and_mask 8 j

      m14 : bit_and w.jiffies 16383 ≡ j % 16384
      m14 = ap (λ i. bit_and i 16383) v.now ∙ bit_and_mask 14 j

      m20 : bit_and w.jiffies 1048575 ≡ j % 1048576
      m20 = ap (λ i. bit_and i 1048575) v.now ∙ bit_and_mask 20 j
