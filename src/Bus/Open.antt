-- ===== src/Bus/Open.antt =====
-- spsc_bus/spsc_bus.hpp: SharedBus::open, and the checks of the other process. What the kernel
-- answers in each round of the loop is a parameter.
pub mod Waits
use message_us_cld.Prelude.{
  ℕ, Bool, true, false, List, [], ◌∷◌, ◌&&◌, not, ◌==◌, ltb, if◌then◌else◌, Option, some, none,
  Outcome, done, threw,
}
use message_us_cld.Bus.Layout.{control_block_size}
use message_us_cld.Bus.Segment.{Segment}

-- `timeout_ms` as 0, -1, or a number of milliseconds.
pub data Timeout : Type 0 where
  no_retry forever limited : Timeout

-- shm_open fails with ENOENT, fails otherwise, or gives a descriptor.
pub data Lookup : Type 0 where
  missing failed opened : Lookup

-- One round: the lookup, st_size, whether mmap succeeds, whether the deadline has passed, and the
-- segment once its magic number is there.
pub record Round : Type 0 where
  pub shm_open : Lookup
  pub size : ℕ
  pub mmap : Bool
  pub late : Bool
  pub seg : Segment

-- Whether a round that found nothing to map is followed by another one.
unfoldable pub retries : Timeout → Bool → Bool
retries no_retry late = false
retries forever late = true
retries limited late = not late

-- `none` is a loop that still runs when the given rounds are over.
unfoldable pub open_bus : Timeout → List Round → Option (Outcome Segment)
open_bus timeout [] = none
open_bus timeout (r ∷ rs) =
    let rest = open_bus timeout rs in
    let again = if retries timeout r.late then rest else some threw in
    elim r.shm_open [
      | missing ↦ again
      | failed ↦ some threw
      | opened ↦
          (if ltb r.size control_block_size
            then again
            else if not r.mmap
            then some threw
            else some (done r.seg))
    ]

pub data PeerStatus : Type 0 where
  alive dead unknown : PeerStatus

-- kill(pid, 0): it succeeds, or fails with ESRCH, or fails otherwise.
pub data Kill : Type 0 where
  reached no_process refused : Kill

-- consumer_status and producer_status, by the registered process id.
unfoldable pub peer_status : ℕ → Kill → PeerStatus
peer_status pid answer =
    if pid == 0
    then unknown
    else elim answer [ reached ↦ alive | no_process ↦ dead | refused ↦ unknown ]
