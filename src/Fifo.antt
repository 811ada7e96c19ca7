-- ===== src/Fifo.antt =====
-- The abstract specification of the rings: a queue of at most `cap` entries, oldest first.
use message_us_cld.Prelude.{ℕ, Bool, true, false, List, [], ◌∷◌, ◌++◌, leb, if◌then◌else◌, length}

module _ {ℓ} {A : Type ℓ} where
  unfoldable pub push : ℕ → List A → A → Bool × List A
  push cap q x = if leb cap (length q) then (false, q) else (true, q ++ (x ∷ []))

  -- The first argument is the answer of an empty queue.
  unfoldable pub pop : A → List A → A × List A
  pop empty [] = (empty, [])
  pop empty (x ∷ q) = (x, q)

-- A client's call.
pub data Op : Type 0 where
  put : ℕ → Op
  get : Op

-- What a call answers.
pub data Reply : Type 0 where
  stored : Bool → Reply
  taken : ℕ → Reply

unfoldable pub run : ℕ → List ℕ → List Op → List Reply
run cap q [] = []
run cap q (put x ∷ ops) = let (done, q') = push cap q x in stored done ∷ run cap q' ops
run cap q (get ∷ ops) = let (x, q') = pop 0 q in taken x ∷ run cap q' ops
