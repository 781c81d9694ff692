-- ===== src/Vma/Tests.antt =====
-- The first slot of a process that has mapped nothing.
use cuhksz_operating_system.Prelude.{ℕ, ◌+◌, ◌≡◌, refl, inr, some, arith}
use cuhksz_operating_system.Vma.{Vma, starting_address, vma_searching_from, set_vma, find_vma}
use cuhksz_operating_system.Vma.Lookup.{IsPlaced, mapped_is_found}

abbrev none_mapped : ℕ → Vma
none_mapped j = record {
  mapped_file = 0;
  mapped_length = 0;
  mapped_starting_address = 0;
  memory_flags = 0;
  mapped_flags = 0;
  offset = 0;
  used_length = 0;
}

none_mapped-IsPlaced : IsPlaced none_mapped
unfolding IsPlaced
none_mapped-IsPlaced j h = inr refl

mapped_is_found_example :
    IsPlaced (set_vma 0 8192 23 1 0 5 none_mapped)
    × (find_vma (starting_address 0 + 4096) (set_vma 0 8192 23 1 0 5 none_mapped) ≡ some 0)
unfolding vma_searching_from
mapped_is_found_example =
    mapped_is_found 8192 23 1 0 5 0 (starting_address 0 + 4096) none_mapped none_mapped-IsPlaced
      refl (omega arith) (omega arith)
