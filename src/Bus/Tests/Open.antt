-- ===== src/Bus/Tests/Open.antt =====
-- SharedBus::open before and after the segment is there.
use message_us_cld.Prelude.{Bool, true, false}
use message_us_cld.Bus.Segment.{fresh}
use message_us_cld.Bus.Open.{missing, opened, Round}

abbrev nothing_yet : Bool → Round
nothing_yet late = record {
  shm_open = missing;
  size = 0;
  mmap = true;
  late = late;
  seg = fresh 7 2 4;
}

abbrev half_made : Round
half_made = record { shm_open = opened; size = 0; mmap = true; late = false; seg = fresh 7 2 4 }

abbrev ready_made : Round
ready_made = record { shm_open = opened; size = 512; mmap = true; late = false; seg = fresh 7 2 4 }
