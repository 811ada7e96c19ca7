-- ===== src/Pool/Cache/Conserve.antt =====
-- A cache in front of a pool: a cached block is one that the pool has handed out and the client has
-- not; none is lost, doubled or handed out twice.
use message_us_cld.Prelude.{
  ℕ, zero, suc, ◌+◌, ◌≤◌, ◌≡◌, refl, arith, List, [], ◌∷◌, ◌++◌, length, count-append,
  length-append, done,
}
use message_us_cld.Pool.Memory.{Memory}
use message_us_cld.Pool.Memory.Conserve.{Inv, Inv-reorder}
use message_us_cld.Pool.Memory.Release.{free-Inv}
use message_us_cld.Pool.Cache.{Stack, flush, flush_all}

-- The stack `s` and the client's blocks `held` are together what the pool has handed out.
abbrev pub CacheInv : ℕ → Memory → Stack → List ℕ → Type 0
CacheInv k m s held = Inv k m (s ++ held)

-- Moving a block between the stack and the client.
pub CacheInv-swap :
    {k : ℕ} {m : Memory} (p : ℕ) (s held : List ℕ)
    → Inv k m (p ∷ (s ++ held))
    → CacheInv k m s (p ∷ held)
CacheInv-swap p s held inv =
    Inv-reorder (p ∷ (s ++ held)) inv
      (λ q. omega (arith, count-append q s held, count-append q s (p ∷ held)))
      (omega (arith, length-append s held, length-append s (p ∷ held)))

-- `flush` and `flush_all` return blocks to the pool one by one; no assertion fails.
pub flush-Inv :
    {k : ℕ} (n : ℕ) (s held : List ℕ) {m : Memory}
    → CacheInv k m s held
    → n ≤ length s
    → (s' : Stack) × (m' : Memory) × (flush n s m ≡ done (s', m'))
      × CacheInv k m' s' held
      × (length s' + n ≡ length s)
unfolding flush
flush-Inv zero s held {m} inv le = (s, m, refl, inv, omega arith)
flush-Inv (suc n) [] held inv le = absurd (omega arith)
flush-Inv (suc n) (p ∷ s) held {m} inv le =
    let (m1, freed, inv1) = free-Inv inv in
    let (s', m', flushed, inv', total) = flush-Inv n s held inv1 (omega arith) in
    (s', m', rw freed flushed, inv', omega arith)

pub flush_all-Inv :
    {k : ℕ} (s held : List ℕ) {m : Memory}
    → CacheInv k m s held
    → (m' : Memory) × (flush_all s m ≡ done m') × Inv k m' held
unfolding flush_all
flush_all-Inv [] held {m} inv = (m, refl, inv)
flush_all-Inv (p ∷ s) held {m} inv =
    let (m1, freed, inv1) = free-Inv inv in
    let (m', flushed, inv') = flush_all-Inv s held inv1 in (m', rw freed flushed, inv')
