-- ===== src/Timer/Epoll/Numbered.antt =====
-- The entries of the queue have different ids (timer/src/epoll_timer.cpp: schedule, schedule_periodic,
-- cancel).
use native.Mathlib.Decide.{dec_lt}
use message_us_cld.Prelude.{
  ℕ, ◌+◌, ◌≤◌, ◌<◌, ◌≡◌, refl, sym, subst, arith, Bool, List, [], ◌∷◌, done, Option, some, none,
  word,
}
use message_us_cld.Timer.Epoll.{Entry, EpollTimer, push, add, cancel, find}
use message_us_cld.Timer.Epoll.Watched.{add-Added, cancel-Cancelled, new_timer, Watched}
use message_us_cld.Timer.Epoll.Calls.{ids}
use message_us_cld.Timer.Epoll.Fires.{Absent, Distinct, push-Distinct}

-- All ids were given out before `n`.
abbrev pub Below : ℕ → List Entry → Type 0
Below n [] = Unit {0}
Below n (e ∷ es) = (e.id < n) × Below n es

pub record Numbered (t : EpollTimer) : Type 0 where
  pub distinct : Distinct t.heap
  pub below : Below t.next_id t.heap

Below-Absent : (n : ℕ) (es : List Entry) → Below n es → Absent n es
Below-Absent n [] b = tt
Below-Absent n (e ∷ es) (lt, b) = (λ q. omega (arith, q, lt), Below-Absent n es b)

Below-suc : (n m : ℕ) (es : List Entry) → n ≤ m → Below n es → Below m es
Below-suc n m [] le b = tt
Below-suc n m (e ∷ es) le (lt, b) = (omega (arith, le, lt), Below-suc n m es le b)

push-Below : (n : ℕ) (e : Entry) (es : List Entry) → e.id < n → Below n es → Below n (push e es)
unfolding push
push-Below n e [] lt b = (lt, tt)
push-Below n e (x ∷ es) lt (h, b) = elim (dec_lt e.expiry_ns x.expiry_ns) [
  | yes first ↦ ground (arith, first, lt, h, b)
  | no later ↦ (let rest = push-Below n e es lt b in ground (arith, later, h, rest))
]

-- As long as ids do not run past their end, a new timer gets an id that no entry has.
pub add-Numbered :
    (settime : ℕ → Bool) (now : ℕ) (t u : EpollTimer) (delay interval cb id : ℕ)
    → Watched t
    → Numbered t
    → t.next_id + 1 < word
    → add settime now t delay interval cb ≡ done (id, u)
    → Numbered u
add-Numbered settime now t u delay interval cb id w v fits e =
    let new = new_timer now t delay interval cb in
    let heap = (add-Added settime now t delay interval cb id u t.heap refl e).0 in
    let next : u.next_id ≡ t.next_id + 1 =
      omega (arith, (ids settime now t w delay interval cb id u t.heap refl e).1, fits) in
    record {
      distinct =
          subst Distinct (sym heap)
            (push-Distinct new t.heap (Below-Absent t.next_id t.heap v.below) v.distinct);
      below =
          subst (λ n. Below n u.heap) (sym next)
            (subst (Below (t.next_id + 1)) (sym heap) (
              push-Below (t.next_id + 1) new t.heap (omega arith)
                (Below-suc t.next_id (t.next_id + 1) t.heap (omega arith) v.below)));
    }

cancel-next_id : (t : EpollTimer) (id : ℕ) → (cancel t id).1.next_id ≡ t.next_id
unfolding cancel
cancel-next_id t id = go (find t.active id) refl
  where
    go : (o : Option Entry) → find t.active id ≡ o → (cancel t id).1.next_id ≡ t.next_id
    go none e = ground (arith, e)
    go (some x) e = ground (arith, e)

pub cancel-Numbered : (t : EpollTimer) (id : ℕ) → Numbered t → Numbered (cancel t id).1
cancel-Numbered t id v =
    let heap = (cancel-Cancelled t id).0 in
    let next = cancel-next_id t id in
    record {
      distinct = subst Distinct (sym heap) v.distinct;
      below =
          subst (λ n. Below n (cancel t id).1.heap) (sym next)
            (subst (Below t.next_id) (sym heap) v.below);
    }
