-- ===== src/Bus/Tests/Handshake.antt =====
-- An open that finds the object first without its size, then without its magic number, then whole.
use message_us_cld.Prelude.{◌≡◌, refl, some}
use message_us_cld.Bus.Layout.{compute_slot_stride, compute_shm_size}
use message_us_cld.Bus.Segment.{fresh, zero_slot}
use message_us_cld.Bus.Handshake.{
  Object, System, created, opened, Reach, here, next, truncates, resizes, clears, fills, finishes,
  looks, tests, zeros,
}
use message_us_cld.Bus.Handshake.Initialised.{no_object, opened_whole}

abbrev whole : Object
whole = record { size = compute_shm_size 2 4; seg = fresh 7 2 4 }

abbrev blank_object : Object
blank_object = record { size = compute_shm_size 2 4; seg = zeros 2 4 }

abbrev both_done : System
both_done = record {
  object = some whole;
  creating = created;
  opening = opened (compute_shm_size 2 4);
}

both_run : Reach 7 2 4 no_object both_done
unfolding fresh zero_slot compute_slot_stride compute_shm_size
both_run =
    next
      (next
        (next
          (next
            (next
              (next
                (next (next (next here (truncates refl refl)) (looks refl refl))
                  (resizes refl refl))
                (looks refl refl))
              (tests blank_object (compute_shm_size 2 4) refl refl refl))
            (clears refl refl))
          (fills refl refl))
        (finishes refl refl))
      (tests whole (compute_shm_size 2 4) refl refl refl)

opened_whole_example :
    (compute_shm_size 2 4 ≡ compute_shm_size 2 4)
    × (both_done.creating ≡ created)
    × (both_done.object ≡ some whole)
opened_whole_example = opened_whole 7 2 4 (compute_shm_size 2 4) both_run refl
