-- ===== src/Clock/Calibrate.antt =====
-- The calibration of TscClock and the moment of a correlation (common/tsc_clock.hpp).
use native.Mathlib.Decide.{dec_le}
use message_us_cld.Prelude.{
  ℕ, ◌+◌, ◌-◌, ◌*◌, ◌%◌, ◌≤◌, ◌<◌, ◌≡◌, ap, subst, ◌∙◌, arith, true, false, List, [], ◌∷◌, some,
  ◌++◌, word, add64, sub64, Bool-cases, inl, inr,
}
use message_us_cld.Clock.{
  Timespec, spin_target, is_before, spin, elapsed_ns, calibrate_ghz, snap_correlation,
}

abbrev pub nanoseconds : Timespec → ℕ
nanoseconds t = t.tv_sec * 1000000000 + t.tv_nsec

-- The nanoseconds are less than a second, and the time in nanoseconds is an int64_t.
abbrev pub IsTime : Timespec → Type 0
IsTime t = (t.tv_nsec < 1000000000) × (nanoseconds t < 9223372036854775808)

abbrev pub AllTimes : List Timespec → Type 0
AllTimes [] = Unit {0}
AllTimes (t ∷ ts) = IsTime t × AllTimes ts

spin_target-later :
    (t0 : Timespec)
    → IsTime t0
    → ((spin_target t0).tv_nsec < 1000000000)
      × (nanoseconds (spin_target t0) ≡ nanoseconds t0 + 50000000)
unfolding spin_target
spin_target-later t0 v = elim (dec_le 1000000000 (t0.tv_nsec + 50000000)) [
  | yes carry ↦ ground (arith, carry, v)
  | no fits ↦ ground (arith, fits, v)
]

is_before-false :
    (t target : Timespec)
    → IsTime t
    → target.tv_nsec < 1000000000
    → is_before t target ≡ false
    → nanoseconds target ≤ nanoseconds t
unfolding is_before
is_before-false t target v small e = ground (arith, v, small, e)

is_before-true :
    (t target : Timespec)
    → t.tv_nsec < 1000000000
    → target.tv_nsec < 1000000000
    → is_before t target ≡ true
    → nanoseconds t < nanoseconds target
unfolding is_before
is_before-true t target v small e = ground (arith, v, small, e)

-- Every reading is before the target.
abbrev pub AllBefore : ℕ → List Timespec → Type 0
AllBefore target [] = Unit {0}
AllBefore target (t ∷ ts) = (nanoseconds t < target) × AllBefore target ts

-- The readings up to `t`, the first one that is not before the target.
abbrev pub FirstAt : ℕ → List Timespec → Timespec → Type 0
FirstAt target ts t =
    (before after : List Timespec) × (ts ≡ before ++ (t ∷ after))
    × AllBefore target before
    × (target ≤ nanoseconds t)

FirstAt-cons :
    (target : ℕ) (x : Timespec) (ts : List Timespec) (t : Timespec)
    → nanoseconds x < target
    → FirstAt target ts t
    → FirstAt target (x ∷ ts) t
FirstAt-cons target x ts t early (before, after, split, earlies, late) =
    (x ∷ before, after, ap (λ us. x ∷ us) split, (early, earlies), late)

spin-FirstAt :
    (target : Timespec) (ts : List Timespec) (t : Timespec)
    → target.tv_nsec < 1000000000
    → AllTimes ts
    → spin target ts ≡ some t
    → IsTime t × FirstAt (nanoseconds target) ts t
unfolding spin
spin-FirstAt target [] t small v e = absurd (ground (arith, e))
spin-FirstAt target (x ∷ ts) t small (v, vs) e = elim (Bool-cases (is_before x target)) [
  | inl early ↦
      let (time, first) = spin-FirstAt target ts t small vs (ground (arith, early, e)) in
      (
        time,
        FirstAt-cons (nanoseconds target) x ts t (is_before-true x target v.0 small early) first,
      )
  | inr late ↦
      let same : x ≡ t = ground (arith, late, e) in
      let past = is_before-false x target v small late in
      (
        subst IsTime same v,
        ([], ts, ap (λ y. y ∷ ts) same, tt, omega (arith, past, ap nanoseconds same)),
      )
]

elapsed_exact :
    (t0 t1 : Timespec)
    → IsTime t0
    → IsTime t1
    → nanoseconds t0 ≤ nanoseconds t1
    → elapsed_ns t0 t1 ≡ nanoseconds t1 - nanoseconds t0
unfolding elapsed_ns
elapsed_exact t0 t1 v0 v1 le =
    let order : t0.tv_sec ≤ t1.tv_sec = omega (arith, v0.0, v1.0, le) in
    let small : t1.tv_sec < 9223372036854775808 = omega (arith, v1.1) in
    let seconds : sub64 t1.tv_sec t0.tv_sec ≡ t1.tv_sec - t0.tv_sec = omega (arith, order, small) in
    let product : (t1.tv_sec - t0.tv_sec) * 1000000000 % word
        ≡ (t1.tv_sec - t0.tv_sec) * 1000000000 =
      omega (arith, order, v1.1) in
    ap (λ d. sub64 (add64 (d * 1000000000 % word) t1.tv_nsec) t0.tv_nsec) seconds
    ∙ ap (λ m. sub64 (add64 m t1.tv_nsec) t0.tv_nsec) product
    ∙ omega (arith, order, v0.0, v1.0, v1.1, le)

spin-ends :
    (target : Timespec) (early : List Timespec) (late : Timespec) (rest : List Timespec)
    → target.tv_nsec < 1000000000
    → late.tv_nsec < 1000000000
    → nanoseconds target ≤ nanoseconds late
    → (t : Timespec) × (spin target (early ++ late ∷ rest) ≡ some t)
unfolding spin
spin-ends target [] late rest small v past = elim (Bool-cases (is_before late target)) [
  | inl before ↦
      let less = is_before-true late target v small before in absurd (omega (arith, less, past))
  | inr after ↦ (late, ground (arith, after))
]
spin-ends target (x ∷ early) late rest small v past =
    let (t, ends) = spin-ends target early late rest small v past in
    elim (Bool-cases (is_before x target)) [
      | inl before ↦ (t, ground (arith, before, ends))
      | inr after ↦ (x, ground (arith, after))
    ]

AllTimes-append : (ts us : List Timespec) → AllTimes ts → AllTimes us → AllTimes (ts ++ us)
AllTimes-append [] us a b = b
AllTimes-append (t ∷ ts) us (v, a) b = (v, AllTimes-append ts us a b)

-- Where the readings of the clock are times, and one of them is 50 ms or more after the first one: the
-- calibration ends with the first reading that is 50 ms or more after it, and the nanoseconds that it
-- divides by are the time between the two, without wrapping.
pub calibrate_ghz-elapsed :
    (t0 late : Timespec) (early rest : List Timespec) (tsc0 tsc1 : ℕ)
    → IsTime t0
    → AllTimes early
    → IsTime late
    → AllTimes rest
    → nanoseconds t0 + 50000000 ≤ nanoseconds late
    → (t1 : Timespec) × (calibrate_ghz t0 tsc0 (early ++ late ∷ rest) tsc1
        ≡ some (sub64 tsc1 tsc0, nanoseconds t1 - nanoseconds t0))
      × FirstAt (nanoseconds t0 + 50000000) (early ++ late ∷ rest) t1
unfolding calibrate_ghz
calibrate_ghz-elapsed t0 late early rest tsc0 tsc1 v0 vs v ws past =
    let (small, later) = spin_target-later t0 v0 in
    let (t1, ends) =
      spin-ends (spin_target t0) early late rest small v.0 (omega (arith, later, past)) in
    let (v1, first) =
      spin-FirstAt (spin_target t0) (early ++ late ∷ rest) t1 small
        (AllTimes-append early (late ∷ rest) vs (v, ws)) ends in
    let found = subst (λ n. FirstAt n (early ++ late ∷ rest) t1) later first in
    let exact = elapsed_exact t0 t1 v0 v1 (omega (arith, found)) in
    (t1, ground (arith, ends, exact), found)

-- The wall time of a correlation lies between the two readings of the clock around the tick counter's.
pub snap_correlation-between :
    (t0 t1 : Timespec) (tsc : ℕ)
    → nanoseconds t0 ≤ nanoseconds t1
    → (nanoseconds t0 ≤ (snap_correlation t0 tsc t1).wall_ns)
      × ((snap_correlation t0 tsc t1).wall_ns ≤ nanoseconds t1)
unfolding snap_correlation
snap_correlation-between t0 t1 tsc le = (omega (arith, le), omega (arith, le))
