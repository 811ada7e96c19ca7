-- ===== src/Pool/Size/Classes.antt =====
-- What `size_to_class` chooses.
use message_us_cld.Prelude.{ℕ, ◌-◌, ◌≤◌, ◌<◌, ◌≡◌, ◌↔◌, none, some, arith, get_or}
use message_us_cld.Pool.Size.{num_size_classes, size_class_bytes, size_to_class}

-- A class that `size_to_class` returns is in the table, its blocks hold the size asked for, and the
-- blocks of the class before it, if there is one, do not.
pub size_to_class_smallest :
    (n c : ℕ)
    → size_to_class n ≡ some c
    → (c < num_size_classes)
      × (n ≤ get_or size_class_bytes c 0)
      × (0 < c → get_or size_class_bytes (c - 1) 0 < n)
unfolding size_to_class
size_to_class_smallest n c h = ground arith

-- No class is returned exactly for the sizes above 8192 bytes.
pub size_to_class-none : (n : ℕ) → (size_to_class n ≡ none) ↔ (8192 < n)
unfolding size_to_class
size_to_class-none n = ground arith
