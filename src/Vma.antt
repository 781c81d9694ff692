-- ===== src/Vma.antt =====
-- The slots of mapped files of a process: `struct vma` of Assignment3/source/proc.h, with the helpers
-- of `sys_mmap` and `sys_munmap` in Assignment3/source/sysfile.c. A file is a number, 0 is none;
-- the field `max_page_length`, which is only copied, is not there.
pub mod Lookup
mod Tests
use cuhksz_operating_system.Prelude.{
  ℕ, zero, suc, ◌+◌, ◌*◌, ◌-◌, ◌^◌, Bool, ◌&&◌, Option, none, some, ltb, leb, ◌==◌, if◌then◌else◌,
}

-- VMASIZE, PGSIZE and MAXVA
abbrev pub vmasize : ℕ
vmasize = 16

abbrev pub pgsize : ℕ
pgsize = 4096

abbrev pub maxva : ℕ
maxva = 2 ^ 38

pub record Vma : Type 0 where
  pub mapped_file : ℕ
  pub mapped_length : ℕ
  pub mapped_starting_address : ℕ
  pub memory_flags : ℕ
  pub mapped_flags : ℕ
  pub offset : ℕ
  pub used_length : ℕ

-- The place of a slot's pages.
abbrev pub starting_address : ℕ → ℕ
starting_address i = maxva - 2 * pgsize - (i + 1) * 8 * pgsize

-- The loop of `vma_searching` from slot `i` on; `none` is -1.
unfoldable pub vma_searching_from : ℕ → ℕ → (ℕ → Vma) → Option ℕ
vma_searching_from zero i vma = none
vma_searching_from (suc left) i vma =
    let rest = vma_searching_from left (i + 1) vma in
    if (vma i).mapped_file == 0 && (vma i).mapped_length == 0 then some i else rest

abbrev pub vma_searching : (ℕ → Vma) → Option ℕ
vma_searching vma = vma_searching_from vmasize 0 vma

-- `set_vma` for slot `i`, with the page flags already computed.
abbrev pub set_vma : ℕ → ℕ → ℕ → ℕ → ℕ → ℕ → (ℕ → Vma) → ℕ → Vma
set_vma i length page_flags shared_flags offset file vma = λ j.
    if j == i
    then record {
      mapped_file = file;
      mapped_length = length;
      mapped_starting_address = starting_address i;
      memory_flags = page_flags;
      mapped_flags = shared_flags;
      offset = offset;
      used_length = 0;
    }
    else vma j

-- The loop of `find_unmap_vma` and of `find_trap_vma` from slot `i` on.
unfoldable pub find_vma_from : ℕ → ℕ → ℕ → (ℕ → Vma) → Option ℕ
find_vma_from va zero i vma = none
find_vma_from va (suc left) i vma =
    let rest = find_vma_from va left (i + 1) vma in
    if leb (vma i).mapped_starting_address va
      && ltb va ((vma i).mapped_starting_address + 8 * pgsize)
    then some i
    else rest

abbrev pub find_vma : ℕ → (ℕ → Vma) → Option ℕ
find_vma va vma = find_vma_from va vmasize 0 vma
