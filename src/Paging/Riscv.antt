-- ===== src/Paging/Riscv.antt =====
-- The entries of src/arch/riscv64/mm/paging.c. As for the other architecture the bits that are put
-- together are different ones.
use utopia.Base.{
  ℕ, ◌+◌, ◌-◌, ◌*◌, ◌/◌, ◌%◌, refl, Bool, not, ◌||◌, arith, ◌==◌, if◌then◌else◌, u64_mod,
}
use utopia.Paging.{VmFlags, Arch, IsLawful, KeepsRights}

-- `rv_phys_to_ppn` and `rv_ppn_to_phys`
abbrev phys_to_ppn : ℕ → ℕ
phys_to_ppn phys = phys / 4096 * 1024 % u64_mod

abbrev ppn_to_phys : ℕ → ℕ
ppn_to_phys pte = pte / 1024 * 4096 % u64_mod

abbrev flag : Bool → ℕ → ℕ
flag b value = if b then value else 0

abbrev flag_bits : VmFlags → ℕ
flag_bits f = flag f.write 4 + flag f.exec 8 + flag f.user 16 + flag f.global 32

pte_table : ℕ → ℕ
pte_table child_phys = phys_to_ppn child_phys + 1

pte_leaf : ℕ → VmFlags → Bool → ℕ
pte_leaf phys f huge = phys_to_ppn phys + 1 + 64 + 128 + 2 + flag_bits f

-- V, R, A and D are set and W, X, U and G are those of the flags; the bits from 8 on are kept.
pte_with_flags : ℕ → VmFlags → ℕ
pte_with_flags existing f = existing / 256 * 256 + 1 + 64 + 128 + 2 + flag_bits f

pte_set_exec : ℕ → Bool → ℕ
pte_set_exec pte executable =
    let rest = pte - pte / 8 % 2 * 8 in if executable then rest + 8 else rest

pte_child_leaf : ℕ → ℕ → ℕ → ℕ
pte_child_leaf parent child_phys child_level = phys_to_ppn child_phys + parent % 1024

pte_with_phys : ℕ → ℕ → ℕ
pte_with_phys existing phys = existing % 1024 + phys_to_ppn phys

pte_present : ℕ → Bool
pte_present pte = pte % 2 == 1

-- Some of the bits R, W and X is set.
pte_is_leaf : ℕ → ℕ → Bool
pte_is_leaf pte level = level == 0 || not (pte / 2 % 8 == 0)

unfoldable pub riscv64 : Arch
unfolding pte_table pte_leaf pte_with_flags pte_set_exec pte_child_leaf pte_with_phys pte_present
    pte_is_leaf
riscv64 = record {
  table = pte_table;
  leaf = pte_leaf;
  with_flags = pte_with_flags;
  set_exec = pte_set_exec;
  child_leaf = pte_child_leaf;
  with_phys = pte_with_phys;
  present = pte_present;
  is_leaf = pte_is_leaf;
  phys = ppn_to_phys;
}

-- The entries of riscv64 are as the page table code needs them.
pub riscv64-IsLawful : IsLawful riscv64
unfolding riscv64
riscv64-IsLawful = record {
  present_zero = refl;
  table_present = λ x f. ground arith;
  table_inner = λ x l f. ground arith;
  table_phys = λ x f. omega arith;
  leaf_present = λ x f h. ground arith;
  leaf_is_leaf = λ x l f p. ground arith;
  leaf_phys = λ x f h p. ground arith;
  leaf_again = λ e f h. ground arith;
  child_present = λ e x l f p. ground arith;
  child_is_leaf = λ e x l f p. ground arith;
  child_phys = λ e x l f. ground arith;
  flags_present = λ e f p. ground arith;
  flags_is_leaf = λ e l f p. ground arith;
  flags_phys = λ e f. ground arith;
  moved_present = λ e x p. ground arith;
  moved_is_leaf = λ e x l f. ground arith;
  moved_phys = λ e x f. omega arith;
  exec_present = λ e b. ground arith;
  exec_phys = λ e b. ground arith;
}

-- The bits that the processor reads.
abbrev pub rights : ℕ → VmFlags
rights pte = record {
  write = pte / 4 % 2 == 1;
  user = pte / 16 % 2 == 1;
  exec = pte / 8 % 2 == 1;
  global = pte / 32 % 2 == 1;
}

pub riscv64-KeepsRights : KeepsRights riscv64 rights
unfolding riscv64
riscv64-KeepsRights = record {
  leaf_rights = λ x f h. (ground arith, ground arith, ground arith, ground arith);
  flags_rights = λ e f. (ground arith, ground arith, ground arith, ground arith);
  child_rights = λ e x l p. (ground arith, ground arith, ground arith, ground arith);
  moved_rights = λ e x p. (ground arith, ground arith, ground arith, ground arith);
  exec_rights = λ e b. (ground arith, ground arith, ground arith, ground arith);
}
