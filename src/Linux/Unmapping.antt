-- ===== src/Linux/Unmapping.antt =====
-- munmap of src/exec/syscalls/linux/memory.c, on page tables that are trees.
use utopia.Base.{
  ℕ, zero, suc, ◌+◌, ◌*◌, ◌%◌, ◌^◌, ◌≤◌, ◌<◌, ◌≡◌, refl, sym, ap, ◌∙◌, subst, ◌≢◌, ◌⊎◌, inl, inr,
  Bool, true, false, ◌&&◌, none, some, arith, ltb, leb, ◌==◌, if◌then◌else◌, ltb→lt, ==_ne,
  Bool-cases, ℤ, pos,
}
use utopia.Paging.{Arch, IsLawful}
use utopia.Vmm.{Vm, unmap_page_4k, vm_user_to_kernel}
use utopia.Vmm.Trees.{Owner, IsTree}
use utopia.Vmm.Linking.{Extends}
use utopia.Vmm.Mapping.{SamePage, apart, other_page}
use utopia.Vmm.Calls.{Changes, unmap_result}
use utopia.Linux.{errno, einval}
use utopia.Linux.Memory.{Process, page_align_up, unmap_pages, rounds, munmap}

module _ (a : Arch) (offset : ℕ) (law : IsLawful a) (off : offset < 2 ^ 64) (root : ℕ) where
  -- What the loop has done when it ended well: nothing is found in the pages, and what is found
  -- elsewhere is unchanged.
  record Unmapped (own : Owner) (n va : ℕ) (vm vm' : Vm) : Type 0 where
    own' : Owner
    extends : Extends own own'
    tree : IsTree a offset own' vm'
    gone : (x : ℕ) → va ≤ x → x < va + n * 4096 → vm_user_to_kernel a offset root x vm' ≡ none
    others :
        (x : ℕ)
        → x < 2 ^ 48
        → (x < va) ⊎ (va + n * 4096 ≤ x)
        → vm_user_to_kernel a offset root x vm' ≡ vm_user_to_kernel a offset root x vm

  pages-stop :
      (n va : ℕ) (vm : Vm)
      → (unmap_page_4k a offset root va vm).0 ≡ false
      → unmap_pages a offset root (suc n) va vm ≡ (false, (unmap_page_4k a offset root va vm).1)
  unfolding unmap_pages
  pages-stop n va vm f = rw (f, unmap_pages) refl

  pages-next :
      (n va : ℕ) (vm : Vm)
      → (unmap_page_4k a offset root va vm).0 ≡ true
      → unmap_pages a offset root (suc n) va vm
        ≡ unmap_pages a offset root n (va + 0x1000) (unmap_page_4k a offset root va vm).1
  unfolding unmap_pages
  pages-next n va vm f = rw (f, unmap_pages) refl

  -- One page and then the rest.
  both :
      (n va : ℕ) (own : Owner) (vm : Vm) {vm1 vm2 : Vm}
      → va % 4096 ≡ 0
      → va + suc n * 4096 ≤ 2 ^ 48
      → own root ≡ some (3, 0)
      → (c : Changes a offset law off own va vm vm1)
      → ((x : ℕ) → SamePage x va → vm_user_to_kernel a offset root x vm1 ≡ none)
      → Unmapped c.own' n (va + 0x1000) vm1 vm2
      → Unmapped own (suc n) va vm vm2
  both n va own vm al b top c here rest = record {
    own' = rest.own';
    extends = λ u q o. rest.extends u q (c.extends u q o);
    tree = rest.tree;
    gone = λ x l u. elim (Bool-cases (ltb x (va + 0x1000))) [
      | inl y ↦
          let k : x < va + 0x1000 = ltb→lt x (va + 0x1000) y in
          rest.others x (omega arith) (inl k) ∙ here x (omega arith)
      | inr k ↦ rest.gone x (ground arith) (ground arith)
    ];
    others = λ x s d.
        rest.others x s (apart n va x d) ∙ c.others x root top (other_page n va x al b s d);
  }

  pages-Unmapped :
      (n va : ℕ) (own : Owner) (vm : Vm)
      → va % 4096 ≡ 0
      → va + n * 4096 ≤ 2 ^ 48
      → IsTree a offset own vm
      → own root ≡ some (3, 0)
      → (unmap_pages a offset root n va vm).0 ≡ true
      → Unmapped own n va vm (unmap_pages a offset root n va vm).1
  unfolding unmap_pages
  pages-Unmapped zero va own vm al b tree top e = record {
    own' = own;
    extends = λ u q o. o;
    tree = tree;
    gone = λ x l u. absurd (omega arith);
    others = λ x l c. refl;
  }
  pages-Unmapped (suc n) va own vm al b tree top e =
      elim (Bool-cases (unmap_page_4k a offset root va vm).0) [
        | inr f ↦
            let x : false ≡ true = ap (λ (r : Bool × Vm). r.0) (sym (pages-stop n va vm f)) ∙ e in
            absurd (cc)
        | inl y ↦
            let step = pages-next n va vm y in
            let (c, none_here, fails) = unmap_result a offset law off own root va vm tree top in
            subst (λ (r : Bool × Vm). Unmapped own (suc n) va vm r.1) (sym step)
              (both n va own vm al b top c (none_here y) (
                pages-Unmapped n (va + 0x1000) c.own' (unmap_page_4k a offset root va vm).1
                  (omega arith) (omega arith) c.tree (c.extends root _ top)
                  (ap (λ (r : Bool × Vm). r.0) (sym step) ∙ e)))
      ]

all_unmapped : (b : Bool) → (if b then pos 0 else errno 12) ≡ pos 0 → b ≡ true
all_unmapped true e = refl
all_unmapped false e = absurd (cc)

rounds-size :
    (addr size : ℕ)
    → addr % 4096 ≡ 0
    → addr + page_align_up size ≤ 2 ^ 48
    → addr + rounds addr (page_align_up size) * 4096 ≡ addr + page_align_up size
rounds-size addr size h l = omega arith

module _ (a : Arch) (offset : ℕ) where
  munmap-runs :
      (p : Process) (addr size : ℕ) (vm : Vm)
      → size ≢ 0
      → addr % 4096 ≡ 0
      → munmap a offset p addr size vm ≡ (
          let r = unmap_pages a offset p.page_table (rounds addr (page_align_up size)) addr vm in
          (if r.0 then pos 0 else errno 12, r.1))
  unfolding munmap
  munmap-runs p addr size vm h k = rw (==_ne size 0 h) (rw k refl)

  -- A call that returns 0 had a length and an aligned address.
  munmap-ran :
      (p : Process) (addr size : ℕ) (vm : Vm)
      → (munmap a offset p addr size vm).0 ≡ pos 0
      → (size ≢ 0) × (addr % 4096 ≡ 0)
  unfolding munmap
  munmap-ran p addr size vm e = elim (Bool-cases (size == 0)) [
    | inl y ↦ let z : einval ≡ pos 0 = sym (ap (λ (r : ℤ × Vm). r.0) (no_size y)) ∙ e in absurd (cc)
    | inr n ↦ elim (Bool-cases (addr % 4096 == 0)) [
      | inl y ↦ ((λ q. ground arith), ground arith)
      | inr k ↦
          let z : einval ≡ pos 0 = sym (ap (λ (r : ℤ × Vm). r.0) (not_aligned n k)) ∙ e in
          absurd (cc)
    ]
  ]
    where
      no_size : (size == 0) ≡ true → munmap a offset p addr size vm ≡ (einval, vm)
      no_size y = rw y refl

      not_aligned :
          (size == 0) ≡ false
          → (addr % 4096 == 0) ≡ false
          → munmap a offset p addr size vm ≡ (einval, vm)
      not_aligned n k = rw n (rw k refl)

  module _ (law : IsLawful a) (off : offset < 2 ^ 64) where
    -- A `munmap` that returns 0 leaves no address of the range found, the length being rounded up to
    -- whole pages, and every other address is found where it was. The range ends at 2^48 at most.
    pub munmap-vm_user_to_kernel :
        (own : Owner) (p : Process) (addr size x : ℕ) (vm : Vm)
        → IsTree a offset own vm
        → own p.page_table ≡ some (3, 0)
        → addr + page_align_up size ≤ 2 ^ 48
        → x < 2 ^ 48
        → (munmap a offset p addr size vm).0 ≡ pos 0
        → vm_user_to_kernel a offset p.page_table x (munmap a offset p addr size vm).1 ≡ (
            if leb addr x && ltb x (addr + page_align_up size)
            then none
            else vm_user_to_kernel a offset p.page_table x vm)
    munmap-vm_user_to_kernel own p addr size x vm tree top b small e =
        let (pos_size, al) = munmap-ran p addr size vm e in
        let run = munmap-runs p addr size vm pos_size al in
        let count = rounds-size addr size al b in
        let done =
          pages-Unmapped a offset law off p.page_table (rounds addr (page_align_up size)) addr own
            vm al (omega (arith, count)) tree top
            (all_unmapped _ (ap (λ (r : ℤ × Vm). r.0) (sym run) ∙ e)) in
        ap (λ (r : ℤ × Vm). vm_user_to_kernel a offset p.page_table x r.1) run
        ∙ elim (Bool-cases (leb addr x && ltb x (addr + page_align_up size))) [
          | inl y ↦ rw y (done.gone x (ground arith) (ground arith))
          | inr n ↦ rw n (done.others x small (ground arith))
        ]
