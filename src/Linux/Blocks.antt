-- ===== src/Linux/Blocks.antt =====
-- The loop of mmap of src/exec/syscalls/linux/memory.c over the pages of a block, on page tables that
-- are trees.
use utopia.Base.{
  ℕ, zero, suc, ◌+◌, ◌-◌, ◌*◌, ◌%◌, ◌^◌, ◌≤◌, ◌<◌, ◌≡◌, refl, sym, ap, ap₂, ◌∙◌, subst, ◌⊎◌, inl,
  inr, Bool, true, false, some, arith, ltb, ltb→lt, Bool-cases, add64,
}
use utopia.Paging.{VmFlags, Arch, IsLawful}
use utopia.Vmm.{Vm, to_virt, map_page_4k, vm_user_to_kernel}
use utopia.Vmm.Trees.{Owner, IsTree}
use utopia.Vmm.Linking.{Extends}
use utopia.Vmm.Mapping.{SamePage, apart, other_page}
use utopia.Vmm.Calls.{Changes, map_result}
use utopia.Linux.Mmap.{map_block}

module _ (a : Arch) (hhdm : ℕ) (law : IsLawful a) (off : hhdm < 2 ^ 64) (root : ℕ) where
  -- What the loop has done when it ended well: the pages are found one after the other from the
  -- physical address on, and what is found elsewhere is unchanged.
  pub record Placed (own : Owner) (n va phys : ℕ) (vm vm' : Vm) : Type 0 where
    pub own' : Owner
    pub extends : Extends own own'
    pub tree : IsTree a hhdm own' vm'
    pub found :
        (x : ℕ)
        → va ≤ x
        → x < va + n * 4096
        → vm_user_to_kernel a hhdm root x vm' ≡ some (to_virt a hhdm (phys + (x - va)))
    pub others :
        (x : ℕ)
        → x < 2 ^ 48
        → (x < va) ⊎ (va + n * 4096 ≤ x)
        → vm_user_to_kernel a hhdm root x vm' ≡ vm_user_to_kernel a hhdm root x vm

  both :
      (n va phys : ℕ) (own : Owner) (vm : Vm) {vm1 vm2 : Vm}
      → va % 4096 ≡ 0
      → va + suc n * 4096 ≤ 2 ^ 48
      → own root ≡ some (3, 0)
      → (c : Changes a hhdm law off own va vm vm1)
      → ((x : ℕ)
          → SamePage x va
          → vm_user_to_kernel a hhdm root x vm1 ≡ some (to_virt a hhdm (phys + x % 4096)))
      → Placed c.own' n (va + 0x1000) (phys + 0x1000) vm1 vm2
      → Placed own (suc n) va phys vm vm2
  both n va phys own vm al b top c here rest = record {
    own' = rest.own';
    extends = λ u q o. rest.extends u q (c.extends u q o);
    tree = rest.tree;
    found = λ x l u. elim (Bool-cases (ltb x (va + 0x1000))) [
      | inl y ↦
          let k : x < va + 0x1000 = ltb→lt x (va + 0x1000) y in
          let d : phys + x % 4096 ≡ phys + (x - va) = omega arith in
          rest.others x (omega arith) (inl k)
          ∙ here x (omega arith)
          ∙ ap (λ z. some (to_virt a hhdm z)) d
      | inr k ↦
          let d : phys + 0x1000 + (x - (va + 0x1000)) ≡ phys + (x - va) = ground arith in
          rest.found x (ground arith) (ground arith) ∙ ap (λ z. some (to_virt a hhdm z)) d
    ];
    others = λ x s d.
        rest.others x s (apart n va x d) ∙ c.others x root top (other_page n va x al b s d);
  }

  module _ (flags : VmFlags) where
    abbrev mapped : ℕ → ℕ → ℕ → Vm → Bool × Vm
    mapped n va phys vm = map_block a hhdm root flags n va phys vm

    block-stop :
        (n va phys : ℕ) (vm : Vm)
        → (map_page_4k a hhdm root va phys flags vm).0 ≡ false
        → mapped (suc n) va phys vm ≡ (false, (map_page_4k a hhdm root va phys flags vm).1)
    unfolding map_block
    block-stop n va phys vm f = rw (f, map_block) refl

    block-next :
        (n va phys : ℕ) (vm : Vm)
        → va + 0x1000 < 2 ^ 64
        → phys + 0x1000 < 2 ^ 64
        → (map_page_4k a hhdm root va phys flags vm).0 ≡ true
        → mapped (suc n) va phys vm
          ≡ mapped n (va + 0x1000) (phys + 0x1000) (map_page_4k a hhdm root va phys flags vm).1
    unfolding map_block
    block-next n va phys vm u v f =
        let p : add64 va 0x1000 ≡ va + 0x1000 = omega arith in
        let q : add64 phys 0x1000 ≡ phys + 0x1000 = omega arith in
        rw (f, map_block)
          (ap₂ (λ x y. mapped n x y (map_page_4k a hhdm root va phys flags vm).1) p q)

    pub block-Placed :
        (n va phys : ℕ) (own : Owner) (vm : Vm)
        → va % 4096 ≡ 0
        → va + n * 4096 ≤ 2 ^ 48
        → phys % 4096 ≡ 0
        → phys + n * 4096 ≤ 2 ^ 52
        → IsTree a hhdm own vm
        → own root ≡ some (3, 0)
        → (mapped n va phys vm).0 ≡ true
        → Placed own n va phys vm (mapped n va phys vm).1
    unfolding map_block
    block-Placed zero va phys own vm al b al' b' tree top e = record {
      own' = own;
      extends = λ u q o. o;
      tree = tree;
      found = λ x l u. absurd (omega arith);
      others = λ x l c. refl;
    }
    block-Placed (suc n) va phys own vm al b al' b' tree top e =
        elim (Bool-cases (map_page_4k a hhdm root va phys flags vm).0) [
          | inr f ↦
              let x : false ≡ true =
                ap (λ (r : Bool × Vm). r.0) (sym (block-stop n va phys vm f)) ∙ e in
              absurd (cc)
          | inl y ↦
              let step = block-next n va phys vm (omega arith) (omega arith) y in
              let (c, here, fails) =
                map_result a hhdm law off own root va vm tree top phys flags
                  (omega arith, omega arith) in
              subst (λ (r : Bool × Vm). Placed own (suc n) va phys vm r.1) (sym step)
                (both n va phys own vm al b top c (here y) (
                  block-Placed n (va + 0x1000) (phys + 0x1000) c.own'
                    (map_page_4k a hhdm root va phys flags vm).1 (omega arith) (omega arith)
                    (omega arith) (omega arith) c.tree (c.extends root _ top)
                    (ap (λ (r : Bool × Vm). r.0) (sym step) ∙ e)))
        ]
