-- ===== src/Bus/Tests/Owner.antt =====
-- The owner of a mapping on objects that are moved and destroyed.
use message_us_cld.Prelude.{◌≡◌, refl, arith, List, [], ◌∷◌, ◌⊎◌}
use message_us_cld.Bus.Owner.{
  Mapping, Use, move_constructs, destroys, move_assigns, use_object, use_objects,
}
use message_us_cld.Bus.Owner.Once.{owned, times_unmapped, use_objects-one_owner}

abbrev page : Mapping
page = record { mem = 4096; size = 8192 }

-- The second object is moved from the first, which is destroyed, and then a third one is assigned over
-- the second.
abbrev uses : List Use
uses = move_constructs 0 ∷ destroys 0 ∷ move_constructs 0 ∷ move_assigns 1 2 ∷ destroys 1 ∷ []

use_objects-one_owner_example :
    (owned 4096 (use_objects uses (record { objects = page ∷ []; unmapped = [] })) ≡ 1)
      × (times_unmapped 4096 (use_objects uses (record { objects = page ∷ []; unmapped = [] })) ≡ 0)
    ⊎ (owned 4096 (use_objects uses (record { objects = page ∷ []; unmapped = [] })) ≡ 0)
      × (times_unmapped 4096 (use_objects uses (record { objects = page ∷ []; unmapped = [] })) ≡ 1)
use_objects-one_owner_example = use_objects-one_owner page uses (λ e. absurd (ground (arith, e)))

uses-unmapped :
    (use_objects uses (record { objects = page ∷ []; unmapped = [] })).unmapped ≡ page ∷ []
unfolding use_objects use_object
uses-unmapped = refl
