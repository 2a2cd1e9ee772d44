-- ===== src/Paging/X86.antt =====
-- The entries of src/arch/x86_64/mm/paging.c. The bits of an entry that are put together by `|` are
-- different ones, so their sum is written.
use utopia.Base.{
  ℕ, ◌+◌, ◌-◌, ◌*◌, ◌/◌, ◌%◌, ◌^◌, refl, Bool, not, ◌||◌, arith, ltb, ◌==◌, if◌then◌else◌,
}
use utopia.Paging.{VmFlags, Arch, IsLawful, KeepsRights}

-- `pte & PAGE_PHYS_MASK`: the bits 12 to 51.
abbrev pub phys_bits : ℕ → ℕ
phys_bits pte = pte / 4096 % 2 ^ 40 * 4096

-- `pte & (1ULL << k)` as a number.
abbrev bit : ℕ → ℕ → ℕ
bit k pte = pte / 2 ^ k % 2 * 2 ^ k

abbrev flag : Bool → ℕ → ℕ
flag b value = if b then value else 0

-- The bits that `arch_pte_leaf` and `arch_pte_with_flags` set for the flags.
abbrev flag_bits : VmFlags → ℕ
flag_bits f = flag f.write 2 + flag f.user 4 + flag (not f.exec) (2 ^ 63) + flag f.global 0x100

pte_table : ℕ → ℕ
pte_table child_phys = phys_bits child_phys + 7

pte_leaf : ℕ → VmFlags → Bool → ℕ
pte_leaf phys f huge = phys_bits phys + 1 + flag_bits f + flag huge 0x80

pte_with_flags : ℕ → VmFlags → ℕ
pte_with_flags existing f = phys_bits existing + bit 7 existing + bit 0 existing + flag_bits f

pte_set_exec : ℕ → Bool → ℕ
pte_set_exec pte executable = if executable then pte - bit 63 pte else pte - bit 63 pte + 2 ^ 63

-- `pte |= PAGE_HUGE` or `pte &= ~PAGE_HUGE` at the end.
pte_child_leaf : ℕ → ℕ → ℕ → ℕ
pte_child_leaf parent child_phys child_level =
    let low = parent % 4096 in
    phys_bits child_phys + bit 63 parent + (low - bit 7 low) + flag (ltb 0 child_level) 0x80

pte_with_phys : ℕ → ℕ → ℕ
pte_with_phys existing phys = existing - phys_bits existing + phys_bits phys

pte_present : ℕ → Bool
pte_present pte = pte % 2 == 1

pte_is_leaf : ℕ → ℕ → Bool
pte_is_leaf pte level = level == 0 || pte / 0x80 % 2 == 1

unfoldable pub x86_64 : Arch
unfolding pte_table pte_leaf pte_with_flags pte_set_exec pte_child_leaf pte_with_phys pte_present
    pte_is_leaf
x86_64 = record {
  table = pte_table;
  leaf = pte_leaf;
  with_flags = pte_with_flags;
  set_exec = pte_set_exec;
  child_leaf = pte_child_leaf;
  with_phys = pte_with_phys;
  present = pte_present;
  is_leaf = pte_is_leaf;
  phys = phys_bits;
}

-- The entries of x86_64 are as the page table code needs them.
pub x86_64-IsLawful : IsLawful x86_64
unfolding x86_64
x86_64-IsLawful = record {
  present_zero = refl;
  table_present = λ x f. ground arith;
  table_inner = λ x l f. ground arith;
  table_phys = λ x f. omega arith;
  leaf_present = λ x f h. ground arith;
  leaf_is_leaf = λ x l f p. ground arith;
  leaf_phys = λ x f h p. ground arith;
  leaf_again = λ e f h. ground arith;
  child_present = λ e x l f p. ground arith;
  child_is_leaf = λ e x l f p. ground arith;
  child_phys = λ e x l f. ground arith;
  flags_present = λ e f p. ground arith;
  flags_is_leaf = λ e l f p. ground arith;
  flags_phys = λ e f. ground arith;
  moved_present = λ e x p. ground arith;
  moved_is_leaf = λ e x l f. ground arith;
  moved_phys = λ e x f. omega arith;
  exec_present = λ e b. ground arith;
  exec_phys = λ e b. ground arith;
}

-- The bits that the processor reads.
abbrev pub rights : ℕ → VmFlags
rights pte = record {
  write = pte / 2 % 2 == 1;
  user = pte / 4 % 2 == 1;
  exec = not (pte / 2 ^ 63 % 2 == 1);
  global = pte / 0x100 % 2 == 1;
}

pub x86_64-KeepsRights : KeepsRights x86_64 rights
unfolding x86_64
x86_64-KeepsRights = record {
  leaf_rights = λ x f h. (ground arith, ground arith, ground arith, ground arith);
  flags_rights = λ e f. (ground arith, ground arith, ground arith, ground arith);
  child_rights = λ e x l p. (ground arith, ground arith, ground arith, ground arith);
  moved_rights = λ e x p. (ground arith, ground arith, ground arith, ground arith);
  exec_rights = λ e b. (ground arith, ground arith, ground arith, ground arith);
}
