-- ===== src/Bus/Segment.antt =====
-- spsc_bus/spsc_bus.hpp: the shared segment as the two processes see it, ControlBlock and SlotHeader
-- with its payload, and SharedBus::create. What the kernel answers is a parameter. Mapping flags and
-- mlock have no effect on the state.
use message_us_cld.Prelude.{
  ℕ, ◌-◌, ◌%◌, Bool, true, false, List, ◌||◌, not, ◌==◌, if◌then◌else◌, bit_and, word32, replicate,
  Outcome, done, threw,
}
use message_us_cld.Bus.Layout.{slot_header_size, compute_slot_stride}

abbrev pub magic_number : ℕ
magic_number = 0x53505343

-- The payload is the bytes of the slot behind its header.
pub record Slot : Type 0 where
  pub generation : ℕ
  pub size : ℕ
  pub payload : List ℕ

pub record Control : Type 0 where
  pub magic : ℕ
  pub capacity : ℕ
  pub slot_stride : ℕ
  pub max_msg_size : ℕ
  pub session_id : ℕ
  pub write_pos : ℕ
  pub read_pos : ℕ
  pub producer_pid : ℕ
  pub producer_heartbeat_ts : ℕ
  pub consumer_pid : ℕ
  pub consumer_heartbeat_ts : ℕ

-- The slots apart from each other, as they are where `slot_stride` is stored whole
-- (Bus.Layout.Bounds). From 2^32 - 71 bytes on for a message, `slot_stride` is 0 or 64 and slots of
-- the program overlap, which this record does not show: the theorems on the bus exclude such a size.
pub record Segment : Type 0 where
  pub control : Control
  pub slots : List Slot

-- A slot of zero bytes.
unfoldable pub zero_slot : ℕ → Slot
zero_slot max_msg_size = record {
  generation = 0;
  size = 0;
  payload = replicate (compute_slot_stride max_msg_size - slot_header_size) 0;
}

-- What the calls behind the mapping write: memset, the fields of the control block, and the positions.
unfoldable pub fresh : ℕ → ℕ → ℕ → Segment
unfolding zero_slot
fresh session capacity max_msg_size = record {
  control = record {
    magic = magic_number;
    capacity = capacity;
    slot_stride = compute_slot_stride max_msg_size % word32;
    max_msg_size = max_msg_size;
    session_id = session;
    write_pos = 0;
    read_pos = 0;
    producer_pid = 0;
    producer_heartbeat_ts = 0;
    consumer_pid = 0;
    consumer_heartbeat_ts = 0;
  };
  slots = replicate capacity (zero_slot max_msg_size);
}

-- Whether shm_open, ftruncate and mmap succeed.
pub record Kernel : Type 0 where
  pub shm_open : Bool
  pub ftruncate : Bool
  pub mmap : Bool

-- The segment, and whether the name is left in the file system; `session` is what make_session_id
-- draws from the clock and the process id.
unfoldable pub create : Kernel → ℕ → ℕ → ℕ → Outcome Segment × Bool
create kernel session capacity max_msg_size =
    if capacity == 0 || not (bit_and capacity (capacity - 1) == 0)
    then (threw, false)
    else if max_msg_size == 0
    then (threw, false)
    else if not kernel.shm_open
    then (threw, false)
    else if not kernel.ftruncate
    then (threw, false)
    else if not kernel.mmap
    then (threw, true)
    else (done (fresh session capacity max_msg_size), true)
