-- ===== src/Bus/Notifier/Wakes.antt =====
-- No wakeup is lost: a consumer that waits on the Notifier while there is a message for it can go on.
use mathlib.Core.List.{map}
use message_us_cld.Prelude.{
  ℕ, ◌≤◌, ◌≡◌, ◌≢◌, ◌⊎◌, inl, inr, refl, sym, ap, ◌∙◌, subst, Bool, true, false, [], none, ◌^◌,
  done, ◌+◌, word32,
}
use message_us_cld.Ring.{window}
use message_us_cld.Bus.Layout.{slot_index}
use message_us_cld.Bus.Segment.{Segment, Kernel, create, fresh}
use message_us_cld.Bus.Endpoints.{blank, producer, consumer}
use message_us_cld.Bus.Threads.{System}
use message_us_cld.Bus.Threads.Valid
use message_us_cld.Bus.Threads.Valid.{message, in_ring, clip, clipped, PoppingOk}
use message_us_cld.Bus.Threads.Order
use message_us_cld.Bus.Threads.Order.{attached, attached-IsValid, create_result}
use message_us_cld.Bus.Notifier.{
  Eventfd, Notified, published, Step, pushes, notifies, pops, wakes, Reach, here, next,
}
use message_us_cld.Bus.Notifier.Steps.{Filled, held, push-held, push-Filled, pop-unsent, pop-held}

-- There is nothing to be told, or the producer is about to tell, or the eventfd can be read.
abbrev Awake : {S : Type 0} → Eventfd S → Notified S → Type 0
Awake io s = (held s.bus ≡ 0) ⊎ ((s.telling ≡ true) ⊎ (io.read s.fd ≢ none))

record IsValid {S : Type 0} (io : Eventfd S) (k buf_size : ℕ) (s : Notified S) : Type 0 where
  bus_valid : Valid.IsValid k buf_size s.bus
  asleep : Filled s.bus.sent → s.sleeping ≡ true → Awake io s

push-Awake :
    {S : Type 0} (io : Eventfd S) (s : Notified S) (b : System) (told : Bool)
    → (told ≡ false → held b ≡ held s.bus)
    → s.telling ≡ false
    → Awake io s
    → Awake io (record s { bus = b; telling = told })
push-Awake io s b true same quiet awake = inr (inl refl)
push-Awake io s b false same quiet (inl nothing) = inl (same refl ∙ nothing)
push-Awake io s b false same quiet (inr (inl telling)) = absurd cc
push-Awake io s b false same quiet (inr (inr readable)) = inr (inr readable)

-- After a write, a read does not block.
abbrev pub WriteWakes : {S : Type 0} → Eventfd S → Type 0
WriteWakes {S} io = (f : S) → io.read (io.write f) ≢ none

module _ {S : Type 0} (io : Eventfd S) (write_wakes : WriteWakes io) {k buf_size : ℕ} where
  Step-IsValid :
      {s t : Notified S} → IsValid io k buf_size s → Step io buf_size s t → IsValid io k buf_size t
  Step-IsValid {s} v (pushes {b} step p quiet eq) = subst (IsValid io k buf_size) (sym eq) (record {
    bus_valid = Order.Step-IsValid v.bus_valid step;
    asleep = λ sent sleeping.
        push-Awake io s b (published step) (push-held step p) quiet
          (v.asleep (push-Filled step p sent) sleeping);
  })
  Step-IsValid {s} v (notifies telling eq) =
      subst (IsValid io k buf_size) (sym eq)
        (record { bus_valid = v.bus_valid; asleep = λ sent sleeping. inr (inr (write_wakes s.fd)) })
  Step-IsValid {s} v (pops {b} step p awake eq) =
      let same = pop-unsent step p in
      subst (IsValid io k buf_size) (sym eq) (record {
        bus_valid = Order.Step-IsValid v.bus_valid step;
        asleep =
            λ sent sleeping. inl (pop-held step v.bus_valid (subst Filled same sent) p sleeping);
      })
  Step-IsValid {s} v (wakes f sleeping read eq) =
      subst (IsValid io k buf_size) (sym eq)
        (record { bus_valid = v.bus_valid; asleep = λ sent asleep. absurd cc })

  Reach-IsValid :
      {s t : Notified S} → IsValid io k buf_size s → Reach io buf_size s t → IsValid io k buf_size t
  Reach-IsValid v here = v
  Reach-IsValid v (next r step) = Step-IsValid (Reach-IsValid v r) step

-- Both sides attached to a new segment, and the consumer about to wait.
abbrev pub waiting_for_first : {S : Type 0} → S → ℕ → ℕ → Segment → Notified S
waiting_for_first fd producer_pid consumer_pid seg = record {
  bus = attached producer_pid consumer_pid seg;
  fd = fd;
  telling = false;
  sleeping = true;
}

some_held : (b : System) → in_ring b ≢ [] → held b ≢ 0
some_held b some_left none_left = some_left (
    ap
      (λ n.
        map message
          (window (slot_index b.prod.capacity) blank b.seg.slots b.seg.control.read_pos n))
      none_left)

fresh-IsValid :
    {S : Type 0} (io : Eventfd S) (k buf_size session max_msg producer_pid consumer_pid : ℕ)
    (fd : S)
    → k ≤ 31
    → IsValid io k buf_size
        (waiting_for_first fd producer_pid consumer_pid (fresh session (2 ^ k) max_msg))
unfolding fresh producer consumer
fresh-IsValid io k buf_size session max_msg producer_pid consumer_pid fd small = record {
  bus_valid = attached-IsValid buf_size producer_pid consumer_pid session k max_msg small;
  asleep = λ sent asleep. inl refl;
}

-- A producer that notifies after each push, and a consumer that waits and then pops until try_pop
-- returns 0, both on a new segment of 2^k slots, k at most 31, for messages of at most 2^32 - 72
-- bytes, with an eventfd on which a read after a write does not block. In any interleaving of their
-- steps, where no message sent is empty: when the consumer is in `wait`, no notification is under way
-- and a message is in the ring, the read of `wait` does not block.
pub no_lost_wakeup :
    {S : Type 0} (io : Eventfd S)
    → WriteWakes io
    → (kernel : Kernel) (session k max_msg : ℕ) (seg : Segment) → k ≤ 31
    → max_msg + 72 ≤ word32
    → (create kernel session (2 ^ k) max_msg).0 ≡ done seg
    → (producer_pid consumer_pid buf_size : ℕ) (fd : S) {t : Notified S}
    → Reach io buf_size (waiting_for_first fd producer_pid consumer_pid seg) t
    → Filled t.bus.sent
    → t.sleeping ≡ true
    → t.telling ≡ false
    → in_ring t.bus ≢ []
    → io.read t.fd ≢ none
no_lost_wakeup io write_wakes kernel session k max_msg seg small fits created pp cp n fd {t} r sent
      asleep quiet some_left =
    elim (v.asleep sent asleep) [
      | inl nothing ↦ absurd (some_held t.bus some_left nothing)
      | inr (inl telling) ↦ absurd cc
      | inr (inr readable) ↦ readable
    ]
  where
    v : IsValid io k n t
    v =
        Reach-IsValid io write_wakes
          (subst (λ g. IsValid io k n (waiting_for_first fd pp cp g))
            (create_result kernel session (2 ^ k) max_msg seg created)
            (fresh-IsValid io k n session max_msg pp cp fd small))
          r
