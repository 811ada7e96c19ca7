-- ===== src/Bus/Handshake.antt =====
-- spsc_bus/spsc_bus.hpp: SharedBus::create in one process beside SharedBus::open in another, in any
-- interleaving of what they do to the shared-memory object. The fence before the magic number and the
-- one after its loop make the accesses visible in the order in which they are written down.
pub mod Initialised
use message_us_cld.Prelude.{ℕ, ◌≡◌, ◌==◌, ltb, if◌then◌else◌, Option, none, some, replicate}
use message_us_cld.Bus.Layout.{control_block_size, compute_shm_size}
use message_us_cld.Bus.Segment.{Segment, magic_number, fresh, zero_slot}

-- Where create stands: the object is there, has its size, is cleared, has all fields but the magic
-- number, has that too.
pub data Creating : Type 0 where
  begun truncated resized cleared filled created : Creating

-- Where open stands: it looks for the name, has mapped so many bytes, and returns the mapping.
pub data Opening : Type 0 where
  looking : Opening
  mapped opened : ℕ → Opening

-- A shared-memory object: its size, and what is in it.
pub record Object : Type 0 where
  pub size : ℕ
  pub seg : Segment

pub record System : Type 0 where
  pub object : Option Object
  pub creating : Creating
  pub opening : Opening

-- Nothing but zeros, as in a new object.
abbrev pub zeros : ℕ → ℕ → Segment
zeros capacity max_msg_size = record {
  control = record {
    magic = 0;
    capacity = 0;
    slot_stride = 0;
    max_msg_size = 0;
    session_id = 0;
    write_pos = 0;
    read_pos = 0;
    producer_pid = 0;
    producer_heartbeat_ts = 0;
    consumer_pid = 0;
    consumer_heartbeat_ts = 0;
  };
  slots = replicate capacity (zero_slot max_msg_size);
}

abbrev pub without_magic : Segment → Segment
without_magic seg =
    let control = seg.control in record seg { control = record control { magic = 0 } }

-- The lookup, the test of the size and mmap.
abbrev pub after_look : System → System
after_look s = record s {
  opening = elim s.object [
    | none ↦ looking
    | some o ↦ (if ltb o.size control_block_size then looking else mapped o.size)
  ];
}

-- One test of the loop on the magic number.
abbrev pub after_test : System → Object → ℕ → System
after_test s o size = record s {
  opening = if o.seg.control.magic == magic_number then opened size else mapped size;
}

module _ (session capacity max_msg_size : ℕ) where
  abbrev pub shm_size : ℕ
  shm_size = compute_shm_size capacity max_msg_size

  -- While the fields are being written, they may be anything.
  pub data Step (s t : System) : Type 0 where
    truncates :
        s.creating ≡ begun
        → t ≡ record s {
          object = some (record { size = 0; seg = zeros capacity max_msg_size });
          creating = truncated;
        }
        → Step s t
    resizes :
        s.creating ≡ truncated
        → t ≡ record s {
          object = some (record { size = shm_size; seg = zeros capacity max_msg_size });
          creating = resized;
        }
        → Step s t
    clears :
        s.creating ≡ resized
        → t ≡ record s {
          object = some (record { size = shm_size; seg = zeros capacity max_msg_size });
          creating = cleared;
        }
        → Step s t
    scribbles :
        (seg : Segment)
        → s.creating ≡ cleared
        → t ≡ record s { object = some (record { size = shm_size; seg = without_magic seg }) }
        → Step s t
    fills :
        s.creating ≡ cleared
        → t ≡ record s {
          object = some (record {
            size = shm_size;
            seg = without_magic (fresh session capacity max_msg_size);
          });
          creating = filled;
        }
        → Step s t
    finishes :
        s.creating ≡ filled
        → t ≡ record s {
          object = some (record { size = shm_size; seg = fresh session capacity max_msg_size });
          creating = created;
        }
        → Step s t
    looks : s.opening ≡ looking → t ≡ after_look s → Step s t
    tests :
        (o : Object) (size : ℕ)
        → s.opening ≡ mapped size
        → s.object ≡ some o
        → t ≡ after_test s o size
        → Step s t

  pub data Reach (s : System) : System → Type 0 where
    here : Reach s s
    next : {t u : System} → Reach s t → Step t u → Reach s u
