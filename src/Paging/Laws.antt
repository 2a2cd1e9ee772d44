-- ===== src/Paging/Laws.antt =====
-- The entries of the two architectures.
use utopia.Paging.X86
use utopia.Paging.Riscv
