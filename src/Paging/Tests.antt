-- ===== src/Paging/Tests.antt =====
-- Runs of the model of the page table entries.
use utopia.Base.{◌+◌, ◌^◌, ◌≡◌, refl, true, false}
use utopia.Paging.{VmFlags}
use utopia.Paging.X86.{x86_64}
use utopia.Paging.Riscv.{riscv64}

abbrev code : VmFlags
code = record { write = false; user = true; exec = true; global = false }

x86_leaf_test : x86_64.leaf 0x12_3000 code false ≡ 0x12_3005
unfolding x86_64
x86_leaf_test = refl

x86_no_exec_test : x86_64.set_exec 0x12_3005 false ≡ 2 ^ 63 + 0x12_3005
unfolding x86_64
x86_no_exec_test = refl

riscv_leaf_test : riscv64.leaf 0x12_3000 code false ≡ 0x4_8cdb
unfolding riscv64
riscv_leaf_test = refl

riscv_phys_test : riscv64.phys 0x4_8cdb ≡ 0x12_3000
unfolding riscv64
riscv_phys_test = refl
