-- ===== src/Ring.antt =====
-- A power-of-two ring under 64-bit positions, the layout that SPSCFreeList (memory_pool) and
-- SharedBus (spsc_bus) share: positions only grow, modulo 2^64, and a mask takes them to a slot.
pub mod Mask
use mathlib.Core.List.{◌∷◌}
use native.Mathlib.Decide.{dec_lt}
use native.Mathlib.Nat.{mod-lt, mod-add-mod, mod-eq_of_lt, mod-eq-sub-mod}
use message_us_cld.Prelude.{
  ℕ, zero, suc, ◌+◌, ◌-◌, ◌%◌, ◌^◌, ◌≤◌, ◌<◌, ◌≡◌, ◌≢◌, refl, sym, ap, ap₂, ◌∙◌, List, [], ◌++◌,
  arith, length, get_or, set, get_or-set_self, get_or-set_ne, word,
}

-- `index` takes a position to its slot among `cap`, also across the wrap of the position.
pub record IsRing (cap : ℕ) (index : ℕ → ℕ) : Type 0 where
  pub positive : 0 < cap
  pub wraps : (p : ℕ) → p % word % cap ≡ p % cap
  pub index_lem : (p : ℕ) → index p ≡ p % cap

module _ {ℓ} {A : Type ℓ} (index : ℕ → ℕ) (default : A) where
  -- The `n` entries from position `r` on, oldest first.
  abbrev pub window : List A → ℕ → ℕ → List A
  window slots r zero = []
  window slots r (suc n) = get_or slots (index r) default ∷ window slots ((r + 1) % word) n

  pub length-window : (slots : List A) (r n : ℕ) → length (window slots r n) ≡ n
  length-window slots r zero = refl
  length-window slots r (suc n) = ap suc (length-window slots ((r + 1) % word) n)

-- Fewer than `cap` steps round the ring do not come back to the slot they left.
mod-add-ne : (cap p j : ℕ) → 0 < j → j < cap → (p + j) % cap ≢ p % cap
mod-add-ne cap p j pos lt same = elim (dec_lt (p % cap + j) cap) [
  | yes small ↦ omega (arith, mod-add-mod p cap j, mod-eq_of_lt small)
  | no large ↦ omega (
    arith,
    mod-add-mod p cap j,
    mod-lt p {m = cap} (omega arith),
    mod-eq-sub-mod {n = p % cap + j} {m = cap} (omega arith),
    mod-eq_of_lt {n = p % cap + j - cap} {m = cap}
        (omega (arith, mod-lt p {m = cap} (omega arith))),
  )
]

module _ {cap : ℕ} {index : ℕ → ℕ} (ring : IsRing cap index) where
  pub index-lt : (p : ℕ) → index p < cap
  index-lt p = omega (arith, ring.index_lem p, mod-lt p ring.positive)

  pub index-ne : (p j : ℕ) → 0 < j → j < cap → index ((p + j) % word) ≢ index p
  index-ne p j pos lt same =
      mod-add-ne cap p j pos lt
        (sym (ring.index_lem ((p + j) % word) ∙ ring.wraps (p + j)) ∙ same ∙ ring.index_lem p)

  -- Only the residue of a position counts.
  index-eq : (p q : ℕ) → p % word ≡ q % word → index p ≡ index q
  index-eq p q same =
      ring.index_lem p
      ∙ sym (ring.wraps p)
      ∙ ap (λ t. t % cap) same
      ∙ ring.wraps q
      ∙ sym (ring.index_lem q)

  module _ {ℓ} {A : Type ℓ} (default : A) where
    -- The newest entry stands last.
    pub window_last :
        (slots : List A) (r n : ℕ)
        → window index default slots r (suc n)
          ≡ window index default slots r n ++ (get_or slots (index ((r + n) % word)) default ∷ [])
    window_last slots r zero =
        ap (λ i. get_or slots i default ∷ []) (index-eq r ((r + 0) % word) (omega arith))
    window_last slots r (suc n) =
        ap (λ t. get_or slots (index r) default ∷ t)
          (window_last slots ((r + 1) % word) n
            ∙ ap
                (λ p.
                  window index default slots ((r + 1) % word) n
                  ++ (get_or slots (index p) default ∷ []))
                (omega arith))

    -- A write just past the window leaves it alone.
    pub window-set :
        (slots : List A) (r n k : ℕ) (v : A)
        → n ≤ k
        → k < cap
        → window index default (set slots (index ((r + k) % word)) v) r n
          ≡ window index default slots r n
    window-set slots r zero k v le lt = refl
    window-set slots r (suc n) k v le lt =
        ap₂ ◌∷◌
          (get_or-set_ne slots (index ((r + k) % word)) (index r) v default
            (index-ne r k (omega arith) lt))
          (ap (λ p. window index default (set slots (index p) v) ((r + 1) % word) n)
              {x = (r + k) % word} {y = ((r + 1) % word + (k - 1)) % word} (omega arith)
            ∙ window-set slots ((r + 1) % word) n (k - 1) v (omega arith) (omega arith))

    -- Writing at the end of the window and counting it in appends the entry.
    pub window-push :
        (slots : List A) (r n : ℕ) (v : A)
        → cap ≤ length slots
        → n < cap
        → window index default (set slots (index ((r + n) % word)) v) r (suc n)
          ≡ window index default slots r n ++ (v ∷ [])
    window-push slots r n v room lt =
        window_last (set slots (index ((r + n) % word)) v) r n
        ∙ ap₂ (λ xs x. xs ++ (x ∷ [])) (window-set slots r n n v (omega arith) lt)
            (get_or-set_self slots (index ((r + n) % word)) v default
              (omega (arith, index-lt ((r + n) % word))))
