-- ===== src/Pool/Tests/Threads.antt =====
-- A push and a pop at the same time, across the wrap of the write position.
use message_us_cld.Prelude.{◌-◌, ◌≤◌, ◌≡◌, refl, [], ◌∷◌, ◌++◌, length, word, arith}
use message_us_cld.Pool.FreeList.{FreeList}
use message_us_cld.Pool.FreeList.Valid.{IsValid, contents}
use message_us_cld.Pool.FreeList.Threads.{
  System, at_rest, Reach, here, next, looks, fills, publishes, checks, loads, releases, after_room,
  after_fill, after_publish, after_check, after_load, after_release,
}
use message_us_cld.Pool.FreeList.Threads.Order.{Reach-fifo}

abbrev one_in : FreeList
one_in = record { wp = word - 1; rp = word - 2; cap = 2; mask = 1; slots = 7 ∷ 0 ∷ [] }

one_in-IsValid : IsValid 1 one_in
one_in-IsValid = record {
  small = omega arith;
  capacity = refl;
  masked = refl;
  storage = refl;
  reading = omega arith;
  writing = omega arith;
  fits = omega arith;
}

abbrev both : System
both =
    after_release
      (after_publish (after_load (after_fill (after_check (after_room (at_rest one_in) 9)) 9)) 9) 7

both_run : Reach (at_rest one_in) both
both_run =
    next
      (next
        (next (next (next (next here (looks 9 refl refl)) (checks refl refl)) (fills 9 refl refl))
          (loads refl refl))
        (publishes 9 refl refl))
      (releases 7 refl refl)

Reach-fifo_example :
    (contents one_in ++ both.pushed ≡ both.popped ++ contents both.list)
    × (length (contents both.list) ≤ 2)
Reach-fifo_example = Reach-fifo {k = 1} one_in-IsValid both_run
