-- ===== src/Bus/Owner.antt =====
-- spsc_bus/spsc_bus.hpp: the moves and the destructor of SharedBus, which owns a mapping. The name is
-- left out.
pub mod Once
use message_us_cld.Prelude.{
  ℕ, Bool, List, [], ◌∷◌, ◌++◌, not, ◌||◌, ◌==◌, ltb, if◌then◌else◌, get_or, set, length,
}

-- An address, 0 for a null pointer, and a size.
pub record Mapping : Type 0 where
  pub mem : ℕ
  pub size : ℕ

abbrev pub null : Mapping
null = record { mem = 0; size = 0 }

-- The SharedBus objects of a program, and the calls of munmap so far. An object at the end of its life
-- stays in the list with a null pointer.
pub record Owners : Type 0 where
  pub objects : List Mapping
  pub unmapped : List Mapping

pub data Use : Type 0 where
  move_constructs destroys : ℕ → Use
  move_assigns : ℕ → ℕ → Use

-- munmap, unless there is nothing to unmap.
abbrev pub released : Mapping → List Mapping → List Mapping
released m calls = if m.mem == 0 then calls else m ∷ calls

-- An index that names no object does nothing.
unfoldable pub use_object : Use → Owners → Owners
use_object (move_constructs i) s = record s {
  objects = set s.objects i null ++ (get_or s.objects i null ∷ []);
}
use_object (destroys i) s = record {
  objects = set s.objects i null;
  unmapped = released (get_or s.objects i null) s.unmapped;
}
use_object (move_assigns i j) s = if i == j || not (ltb i (length s.objects)) then s else record {
  objects = set (set s.objects i (get_or s.objects j null)) j null;
  unmapped = released (get_or s.objects i null) s.unmapped;
}

unfoldable pub use_objects : List Use → Owners → Owners
use_objects [] s = s
use_objects (u ∷ us) s = use_objects us (use_object u s)
