-- ===== src/Bus/Owner/Once.antt =====
-- A mapping has one owner, and is unmapped once (spsc_bus/spsc_bus.hpp: SharedBus).
use native.Mathlib.Decide.{ℕ_discrete, dec_lt}
use message_us_cld.Prelude.{
  ℕ, zero, suc, ◌+◌, ◌≤◌, ◌≡◌, ◌≢◌, refl, ◌∙◌, arith, List, [], ◌∷◌, ◌==◌, if◌then◌else◌, get_or,
  set, length, sum_by, sum_by-append, sum_by-set, set-beyond, get_or-set_ne, ◌⊎◌, inl, inr,
}
use message_us_cld.Bus.Owner.{
  Mapping, null, Owners, Use, move_constructs, destroys, move_assigns, released, use_object,
  use_objects,
}

-- 1 for the mapping at an address.
abbrev pub at_address : ℕ → Mapping → ℕ
at_address address m = if m.mem == address then 1 else 0

-- How many objects own the mapping at an address, and how often it was unmapped.
abbrev pub owned : ℕ → Owners → ℕ
owned address s = sum_by (at_address address) s.objects

abbrev pub times_unmapped : ℕ → Owners → ℕ
times_unmapped address s = sum_by (at_address address) s.unmapped

get_or-beyond : {A : Type 0} (xs : List A) (i : ℕ) (d : A) → length xs ≤ i → get_or xs i d ≡ d
get_or-beyond [] i d le = refl
get_or-beyond (x ∷ xs) zero d le = absurd (omega arith)
get_or-beyond (x ∷ xs) (suc i) d le = get_or-beyond xs i d (omega arith)

module _ (address : ℕ) (real : address ≢ 0) where
  -- Taking an object's mapping away, wherever the index points.
  taken :
      (xs : List Mapping) (i : ℕ)
      → sum_by (at_address address) (set xs i null) + at_address address (get_or xs i null)
        ≡ sum_by (at_address address) xs
  taken xs i = elim (dec_lt i (length xs)) [
    | yes there ↦
        let trade = sum_by-set (at_address address) xs i null null there in
        ground (arith, trade, real)
    | no beyond ↦
        let same = set-beyond xs i null (omega (arith, beyond)) in
        let nothing = get_or-beyond xs i null (omega (arith, beyond)) in
        ground (arith, same, nothing, real)
  ]

  sum-released :
      (m : Mapping) (calls : List Mapping)
      → sum_by (at_address address) (released m calls)
        ≡ at_address address m + sum_by (at_address address) calls
  sum-released m calls = elim (ℕ_discrete m.mem 0) [
    | yes none ↦ ground (arith, none, real)
    | no some ↦ ground (arith, some)
  ]

  use_object-once :
      (u : Use) (s : Owners)
      → owned address (use_object u s) + times_unmapped address (use_object u s)
        ≡ owned address s + times_unmapped address s
  unfolding use_object
  use_object-once (move_constructs i) s =
      let gone = taken s.objects i in
      let more =
        sum_by-append (at_address address) (set s.objects i null) (get_or s.objects i null ∷ []) in
      omega (arith, gone, more)
  use_object-once (destroys i) s =
      let gone = taken s.objects i in
      let call = sum-released (get_or s.objects i null) s.unmapped in omega (arith, gone, call)
  use_object-once (move_assigns i j) s = elim (ℕ_discrete i j) [
    | yes same ↦ ground (arith, same)
    | no other ↦ elim (dec_lt i (length s.objects)) [
      | no beyond ↦ ground (arith, beyond)
      | yes there ↦
          let xs = set s.objects i (get_or s.objects j null) in
          let trade =
            sum_by-set (at_address address) s.objects i (get_or s.objects j null) null there in
          let gone = taken xs j in
          let kept = get_or-set_ne s.objects i j (get_or s.objects j null) null other in
          let call = sum-released (get_or s.objects i null) s.unmapped in
          ground (arith, other, there, trade, gone, kept, call)
    ]
  ]

  use_objects-once :
      (us : List Use) (s : Owners)
      → owned address (use_objects us s) + times_unmapped address (use_objects us s)
        ≡ owned address s + times_unmapped address s
  unfolding use_objects
  use_objects-once [] s = refl
  use_objects-once (u ∷ us) s = use_objects-once us (use_object u s) ∙ use_object-once u s

-- However SharedBus objects are moved and destroyed, a mapping that one object got, at an address that
-- is not 0, has one object that owns it and was not unmapped, or has none and was unmapped once.
pub use_objects-one_owner :
    (mapping : Mapping) (us : List Use)
    → mapping.mem ≢ 0
    → let s = use_objects us (record { objects = mapping ∷ []; unmapped = [] }) in
      (owned mapping.mem s ≡ 1) × (times_unmapped mapping.mem s ≡ 0)
      ⊎ (owned mapping.mem s ≡ 0) × (times_unmapped mapping.mem s ≡ 1)
use_objects-one_owner mapping us real =
    let start : Owners = record { objects = mapping ∷ []; unmapped = [] } in
    let once = use_objects-once mapping.mem real us start in
    let total : owned mapping.mem (use_objects us start)
          + times_unmapped mapping.mem (use_objects us start)
        ≡ 1 =
      once ∙ ground arith in
    elim (ℕ_discrete (owned mapping.mem (use_objects us start)) 0) [
      | yes lost ↦ inr (lost, omega (arith, lost, total))
      | no kept ↦ inl (omega (arith, kept, total), omega (arith, kept, total))
    ]
