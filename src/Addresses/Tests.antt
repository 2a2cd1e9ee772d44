-- ===== src/Addresses/Tests.antt =====
-- Address translation of src/mm/vmm.c at some addresses.
use utopia.Base.{◌≡◌, refl, none, some}
use utopia.Addresses.{phys_to_virt, hhdm_virt_to_phys}

there : phys_to_virt (some 0xffff_8000_0000_0000) 0x1000 ≡ 0xffff_8000_0000_1000
unfolding phys_to_virt
there = refl

back : hhdm_virt_to_phys (some 0xffff_8000_0000_0000) 0xffff_8000_0000_1000 ≡ 0x1000
unfolding hhdm_virt_to_phys
back = refl

no_offset : hhdm_virt_to_phys none 0xffff_8000_0000_1000 ≡ 0x1000
unfolding hhdm_virt_to_phys
no_offset = refl
