-- ===== src/Timer/Epoll/Watched.antt =====
-- The timerfd is set for the first timer, or earlier (timer/src/epoll_timer.cpp: schedule,
-- schedule_periodic and cancel).
use native.Mathlib.Decide.{ℕ_discrete, dec_lt}
use mathlib.Core.List.{Memᴰ}
use message_us_cld.Prelude.{
  ℕ, ◌+◌, ◌<◌, ◌≡◌, refl, sym, ap, ◌∙◌, subst, arith, Bool, List, [], ◌∷◌, Option, some, none, ◌⊎◌,
  inl, inr, done,
}
use message_us_cld.Timer.Epoll.{
  Entry, EpollTimer, push, find, erase, assign, rearm_timerfd, add, cancel,
}
use message_us_cld.Timer.Epoll.Queue.{
  AtLeast, Sorted, Held, AtLeast-le, push-AtLeast, push-Sorted, Memᴰ-push_self, Memᴰ-push,
  find-erase_self, find-erase_ne, find-assign_self, find-assign_ne,
}

-- The time that the timerfd is set to is not after any entry of the queue.
abbrev pub WakesFor : Option ℕ → List Entry → Type 0
WakesFor none es = es ≡ []
WakesFor (some at) es = AtLeast at es

-- The queue is sorted and holds every active timer.
pub record Ordered (t : EpollTimer) : Type 0 where
  pub sorted : Sorted t.heap
  pub held : Held t.active t.heap

-- Besides, the timerfd wakes for every entry.
pub record Watched (t : EpollTimer) : Type 0 where
  pub ordered : Ordered t
  pub wakes : WakesFor t.armed t.heap

pub ordered :
    (u : EpollTimer) {heap : List Entry} {active : List (ℕ × Entry)}
    → u.heap ≡ heap
    → u.active ≡ active
    → Sorted heap
    → Held active heap
    → Ordered u
ordered u {heap} same_heap same_active s h = record {
  sorted = subst Sorted (sym same_heap) s;
  held = subst (Held u.active) (sym same_heap) (subst (λ es. Held es heap) (sym same_active) h);
}

pub erase-Held :
    (es : List (ℕ × Entry)) (heap : List Entry) (id : ℕ) → Held es heap → Held (erase es id) heap
erase-Held es heap id held i e found = elim (ℕ_discrete i id) [
  | yes same ↦ absurd (ground (arith, found, find-erase_self es id, same))
  | no ne ↦ held i e (sym (find-erase_ne es id i ne) ∙ found)
]

pub assign-Held :
    (es : List (ℕ × Entry)) (heap : List Entry) (new : Entry)
    → Held es heap
    → Held (assign es new) (push new heap)
assign-Held es heap new held i e found = elim (ℕ_discrete i new.id) [
  | yes same ↦
      let eq : e ≡ new = ground (arith, found, find-assign_self es new, same) in
      (
        ap Entry.id eq ∙ sym same,
        subst (λ x. Memᴰ x (push new heap)) (sym eq) (Memᴰ-push_self new heap),
      )
  | no ne ↦
      let (at_i, m) = held i e (sym (find-assign_ne es new i ne) ∙ found) in
      (at_i, Memᴰ-push e new heap m)
]

abbrev pub Cancelled : EpollTimer → ℕ → EpollTimer → Type 0
Cancelled t id u =
    (u.heap ≡ t.heap)
    × (u.armed ≡ t.armed)
    × ((u.active ≡ t.active) ⊎ (u.active ≡ erase t.active id))

pub cancel-Cancelled : (t : EpollTimer) (id : ℕ) → Cancelled t id (cancel t id).1
unfolding cancel
cancel-Cancelled t id = go (find t.active id) refl
  where
    go : (o : Option Entry) → find t.active id ≡ o → Cancelled t id (cancel t id).1
    go none e = ground (arith, e)
    go (some x) e = ground (arith, e)

pub cancel-Ordered : (t : EpollTimer) (id : ℕ) → Ordered t → Ordered (cancel t id).1
cancel-Ordered t id v =
    let (heap, armed, active) = cancel-Cancelled t id in
    record {
      sorted = subst Sorted (sym heap) v.sorted;
      held = subst (Held (cancel t id).1.active) (sym heap) (elim active [
        | inl same ↦ subst (λ es. Held es t.heap) (sym same) v.held
        | inr less ↦ subst (λ es. Held es t.heap) (sym less) (erase-Held t.active t.heap id v.held)
      ]);
    }

-- Cancelling a timer leaves the timerfd set for every timer that is left.
pub cancel-Watched : (t : EpollTimer) (id : ℕ) → Watched t → Watched (cancel t id).1
cancel-Watched t id v =
    let (heap, armed, active) = cancel-Cancelled t id in
    record {
      ordered = cancel-Ordered t id v.ordered;
      wakes =
          subst (λ a. WakesFor a (cancel t id).1.heap) (sym armed)
            (subst (WakesFor t.armed) (sym heap) v.wakes);
    }

abbrev pub new_timer : ℕ → EpollTimer → ℕ → ℕ → ℕ → Entry
new_timer now t delay interval cb = record {
  id = t.next_id;
  expiry_ns = now + delay;
  interval_ns = interval;
  cb = cb;
}

-- The state that schedule leaves when it does not throw.
module _ (settime : ℕ → Bool) (now : ℕ) (t : EpollTimer) (delay interval cb : ℕ) where
  abbrev timer : Entry
  timer = new_timer now t delay interval cb

  abbrev pub Added : EpollTimer → Type 0
  Added u =
      (u.heap ≡ push timer t.heap)
      × (u.active ≡ assign t.active timer)
      × ((u.armed ≡ some (now + delay)) ⊎ (u.armed ≡ t.armed))

  -- The timerfd is set for the new timer when no entry of the queue is as early.
  pub add-Added :
      (id : ℕ) (u : EpollTimer) (es : List Entry)
      → t.heap ≡ es
      → add settime now t delay interval cb ≡ done (id, u)
      → Added u
  unfolding add rearm_timerfd
  add-Added id u [] h e = ground (arith, h, e)
  add-Added id u (x ∷ es) h e = ground (arith, h, e)

  add-wakes :
      (id : ℕ) (u : EpollTimer) (es : List Entry)
      → t.heap ≡ es
      → Sorted es
      → WakesFor t.armed es
      → add settime now t delay interval cb ≡ done (id, u)
      → WakesFor u.armed (push timer es)
  unfolding add rearm_timerfd push
  add-wakes id u [] h s w e =
      let armed : u.armed ≡ some (now + delay) = ground (arith, h, e) in
      subst (λ a. WakesFor a (timer ∷ [])) (sym armed) (omega arith, tt)
  add-wakes id u (x ∷ es) h s w e = elim (dec_lt (now + delay) x.expiry_ns) [
    | yes lt ↦
        let armed : u.armed ≡ some (now + delay) = ground (arith, h, e, lt) in
        subst (λ a. WakesFor a (push timer (x ∷ es))) (sym armed)
          (push-AtLeast (now + delay) timer (x ∷ es) (omega arith)
            (omega (arith, lt), AtLeast-le (now + delay) x.expiry_ns es (omega (arith, lt)) s.0))
    | no ge ↦
        let armed : u.armed ≡ t.armed = ground (arith, h, e, ge) in
        subst (λ a. WakesFor a (push timer (x ∷ es))) (sym armed) (go t.armed ge w)
  ]
    where
      go :
          (a : Option ℕ)
          → ¬ (now + delay < x.expiry_ns)
          → WakesFor a (x ∷ es)
          → WakesFor a (push timer (x ∷ es))
      go none ge w = absurd (ground (arith, w))
      go (some a) ge w = push-AtLeast a timer (x ∷ es) (omega (arith, ge, w.0)) w

  -- Scheduling keeps the timerfd set for every timer, the new one included, unless it throws.
  pub add-Watched :
      (id : ℕ) (u : EpollTimer)
      → Watched t
      → add settime now t delay interval cb ≡ done (id, u)
      → Watched u
  add-Watched id u v e =
      let (heap, active, armed) = add-Added id u t.heap refl e in
      record {
        ordered =
            ordered u heap active (push-Sorted timer t.heap v.ordered.sorted)
              (assign-Held t.active t.heap timer v.ordered.held);
        wakes =
            subst (WakesFor u.armed) (sym heap)
              (add-wakes id u t.heap refl v.ordered.sorted v.wakes e);
      }
