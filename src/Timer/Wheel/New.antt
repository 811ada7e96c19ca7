-- ===== src/Timer/Wheel/New.antt =====
-- A new wheel is empty.
use message_us_cld.Prelude.{
  ℕ, zero, suc, ◌<◌, ◌≡◌, refl, sym, subst, arith, List, [], length, length-replicate, replicate,
  get_or,
}
use message_us_cld.Timer.Wheel.{Entry, Wheel, slot_counts, new_wheel, find, slot_at}
use message_us_cld.Timer.Wheel.Cancel.{Absent, IsReady}
use message_us_cld.Timer.Wheel.Placed.{Placed, All}
use message_us_cld.Timer.Wheel.Due.{IsSteady, resting}
use message_us_cld.Timer.Wheel.Firing.{Call, run, AllFit, run-IsSteady, Behaves}

get_or-replicate : (n i : ℕ) → get_or (replicate {A = List Entry} n []) i [] ≡ []
get_or-replicate zero i = refl
get_or-replicate (suc n) zero = refl
get_or-replicate (suc n) (suc i) = get_or-replicate n i

empty_slot : (ns level slot : ℕ) → get_or (get_or (new_wheel ns).levels level []) slot [] ≡ []
unfolding new_wheel
empty_slot ns zero slot = get_or-replicate 256 slot
empty_slot ns (suc zero) slot = get_or-replicate 64 slot
empty_slot ns (suc (suc zero)) slot = get_or-replicate 64 slot
empty_slot ns (suc (suc (suc zero))) slot = get_or-replicate 64 slot
empty_slot ns (suc (suc (suc (suc level)))) slot = refl

slots_of_level :
    (ns level : ℕ)
    → level < 4
    → length (get_or (new_wheel ns).levels level []) ≡ get_or slot_counts level 0
unfolding new_wheel
slots_of_level ns zero lt = length-replicate {A = List Entry} 256 []
slots_of_level ns (suc zero) lt = length-replicate {A = List Entry} 64 []
slots_of_level ns (suc (suc zero)) lt = length-replicate {A = List Entry} 64 []
slots_of_level ns (suc (suc (suc zero))) lt = length-replicate {A = List Entry} 64 []
slots_of_level ns (suc (suc (suc (suc level)))) lt = absurd (omega arith)

pub new_wheel-IsReady : (ns : ℕ) → IsReady (new_wheel ns)
unfolding new_wheel slot_at find
new_wheel-IsReady ns = record {
  level_count = refl;
  slot_count = slots_of_level ns;
  unused = λ loc. subst (λ es. Absent es 1) (sym (empty_slot ns loc.level loc.slot)) tt;
  unknown = refl;
}

pub new_wheel-IsSteady : (ns : ℕ) → IsSteady (new_wheel ns)
unfolding new_wheel slot_at
new_wheel-IsSteady ns = record {
  on_time = record {
    shaped = record { level_count = refl; slot_count = slots_of_level ns };
    placed = λ loc.
        subst (All (λ e. Placed (resting 0) loc.level loc.slot e.expiry_tick))
          (sym (empty_slot ns loc.level loc.slot)) tt;
    now = refl;
  };
  in_word = omega arith;
}

-- However timers are scheduled, cancelled and ticked on a new wheel, with callbacks that leave a wheel
-- as between two ticks, and short of the end of the counter: every timer stands in the slot that the
-- wheel comes to by the tick at which it expires, and none of them is overdue.
pub run_from_new :
    (callback : ℕ → Wheel → Wheel)
    → Behaves callback
    → (ns : ℕ) (calls : List Call) → AllFit callback calls (new_wheel ns)
    → IsSteady (run callback calls (new_wheel ns))
run_from_new callback behaves ns calls fit =
    run-IsSteady callback behaves calls (new_wheel ns) (new_wheel-IsSteady ns) fit
