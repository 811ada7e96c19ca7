-- ===== src/Bus/Tests/Checked.antt =====
-- The checked calls with a ring that stays empty, or has room.
use message_us_cld.Prelude.{refl, arith, List, [], ◌∷◌}
use message_us_cld.Bus.Segment.{Segment, fresh}
use message_us_cld.Bus.Endpoints.{Producer, Consumer, producer, consumer}
use message_us_cld.Bus.Open.{no_process}
use message_us_cld.Bus.Checked.{View, pop_checked}
use message_us_cld.Bus.Checked.Gone.{Returned, pop_checked-Returned}

abbrev registered : Segment
registered = (producer 11 (fresh 7 2 4)).1

abbrev sender : Producer
sender = (producer 11 (fresh 7 2 4)).0

abbrev receiver : Consumer
receiver = (consumer 12 registered).0

-- Two attempts, the producer gone at both.
abbrev left_alone : List View
left_alone =
    record { seg = registered; kill = no_process }
    ∷ record { seg = registered; kill = no_process }
    ∷ []

pop_checked-Returned_example : Returned (pop_checked 2 0 receiver 4 left_alone)
unfolding fresh producer
pop_checked-Returned_example =
    pop_checked-Returned 2 4 receiver left_alone (omega arith) (omega arith)
      (omega arith, refl, (omega arith, refl, tt))
