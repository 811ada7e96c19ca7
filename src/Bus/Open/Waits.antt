-- ===== src/Bus/Open/Waits.antt =====
-- How long SharedBus::open waits.
use message_us_cld.Prelude.{◌≡◌, ◌<◌, ◌≤◌, Bool, Outcome, done, true, false, List, [], ◌∷◌, threw}
use message_us_cld.Bus.Layout.{control_block_size}
use message_us_cld.Bus.Segment.{Segment}
use message_us_cld.Bus.Open.{Timeout, no_retry, forever, limited, missing, failed, opened, Round}

-- There is nothing to map yet: no name, or a segment without its size.
pub data NotYet (r : Round) : Type 0 where
  no_name : r.shm_open ≡ missing → NotYet r
  no_size : r.shm_open ≡ opened → r.size < control_block_size → NotYet r

abbrev pub AllNotYet : List Round → Type 0
AllNotYet [] = Unit {0}
AllNotYet (r ∷ rs) = NotYet r × AllNotYet rs

-- By the documentation of `timeout_ms`: 0 never waits, -1 waits for ever, and a number of milliseconds
-- waits until it is over.
abbrev pub MayWait : Timeout → Bool → Type 0
MayWait no_retry late = ⊥
MayWait forever late = Unit {0}
MayWait limited late = late ≡ false

abbrev pub MustGiveUp : Timeout → Bool → Type 0
MustGiveUp no_retry late = Unit {0}
MustGiveUp forever late = ⊥
MustGiveUp limited late = late ≡ true

abbrev pub InTime : Timeout → List Round → Type 0
InTime timeout [] = Unit {0}
InTime timeout (r ∷ rs) = MayWait timeout r.late × InTime timeout rs

-- The round that ends the call, and how.
pub data Ending (timeout : Timeout) (r : Round) : Outcome Segment → Type 0 where
  maps :
      r.shm_open ≡ opened
      → control_block_size ≤ r.size
      → r.mmap ≡ true
      → Ending timeout r (done r.seg)
  unmapped :
      r.shm_open ≡ opened → control_block_size ≤ r.size → r.mmap ≡ false → Ending timeout r threw
  refused : r.shm_open ≡ failed → Ending timeout r threw
  times_out : NotYet r → MustGiveUp timeout r.late → Ending timeout r threw
