-- ===== src/Addresses.antt =====
-- Address translation of src/mm/vmm.c, in the build for the Limine boot protocol. The answer of
-- the boot loader is an argument: `none` where it gave none.
mod Tests
use utopia.Base.{ℕ, ◌^◌, ◌<◌, ◌≡◌, ◌≢◌, Option, none, some, arith, add64, sub64}

-- What `exec_addr_request.response` points to.
pub record ExecAddress : Type 0 where
  pub virtual_base : ℕ
  pub physical_base : ℕ

-- `hhdm` is the offset of `hhdm_request.response`.
unfoldable pub phys_to_virt : Option ℕ → ℕ → ℕ
phys_to_virt (some offset) phys = add64 offset phys
phys_to_virt none phys = phys

unfoldable pub hhdm_virt_to_phys : Option ℕ → ℕ → ℕ
hhdm_virt_to_phys (some offset) addr = sub64 addr offset
hhdm_virt_to_phys none addr = sub64 addr 0xffff_8000_0000_0000

unfoldable pub kernel_virt_to_phys : Option ExecAddress → ℕ → ℕ
kernel_virt_to_phys (some r) addr = add64 (sub64 addr r.virtual_base) r.physical_base
kernel_virt_to_phys none addr = add64 (sub64 addr 0xffff_ffff_8000_0000) 0x20_0000

-- With an offset from the boot loader, translating a physical address there and back gives it
-- again, though the sum may wrap.
pub hhdm_virt_to_phys-phys_to_virt :
    (offset phys : ℕ)
    → offset < 2 ^ 64
    → phys < 2 ^ 64
    → hhdm_virt_to_phys (some offset) (phys_to_virt (some offset) phys) ≡ phys
unfolding hhdm_virt_to_phys phys_to_virt
hhdm_virt_to_phys-phys_to_virt offset phys h k = omega arith

-- Without one the two functions disagree at every physical address.
pub hhdm_none_differs :
    (phys : ℕ) → phys < 2 ^ 64 → hhdm_virt_to_phys none (phys_to_virt none phys) ≢ phys
unfolding hhdm_virt_to_phys phys_to_virt
hhdm_none_differs phys h = omega arith
