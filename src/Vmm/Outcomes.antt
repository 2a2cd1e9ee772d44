-- ===== src/Vmm/Outcomes.antt =====
-- The promises of map_page_4k, unmap_page_4k and protect_page_4k of src/mm/vmm.c, for tables that
-- are trees: `own` says which tables there are and which addresses they serve.
use utopia.Base.{
  ℕ, ◌+◌, ◌%◌, ◌^◌, ◌≤◌, ◌<◌, ◌≡◌, inl, inr, true, false, none, some, List, [], ◌∷◌, arith,
  Bool-cases, length,
}
use utopia.Paging.{VmFlags, Arch, Frame, IsLawful}
use utopia.Vmm.{Vm, to_virt, map_page_4k, protect_page_4k, unmap_page_4k, vm_user_to_kernel}
use utopia.Vmm.Trees.{Owner, IsTree}
use utopia.Vmm.Linking.{Extends}
use utopia.Vmm.Mapping.{SamePage}
use utopia.Vmm.Calls.{Changes, map_result, unmap_result, protect_result}

-- The calls that change single pages.
pub data Call : Type 0 where
  map_page : ℕ → ℕ → ℕ → VmFlags → Call
  protect_page : ℕ → ℕ → VmFlags → Call
  unmap_page : ℕ → ℕ → Call

module _ (a : Arch) (offset : ℕ) (law : IsLawful a) (off : offset < 2 ^ 64) where
  -- The calls, one after the other, whatever each returns.
  unfoldable pub run : List Call → Vm → Vm
  unfolding map_page_4k protect_page_4k unmap_page_4k
  run [] vm = vm
  run (map_page root va phys flags ∷ cs) vm = run cs (map_page_4k a offset root va phys flags vm).1
  run (protect_page root va flags ∷ cs) vm = run cs (protect_page_4k a offset root va flags vm).1
  run (unmap_page root va ∷ cs) vm = run cs (unmap_page_4k a offset root va vm).1

  -- The roots of the calls are top tables, and what is mapped is a frame.
  unfoldable pub Sound : Owner → List Call → Type 0
  Sound own [] = Unit {0}
  Sound own (map_page root va phys flags ∷ cs) =
      (own root ≡ some (3, 0)) × Frame phys × Sound own cs
  Sound own (protect_page root va flags ∷ cs) = (own root ≡ some (3, 0)) × Sound own cs
  Sound own (unmap_page root va ∷ cs) = (own root ≡ some (3, 0)) × Sound own cs

  Sound-Extends :
      (own own' : Owner) (cs : List Call) → Extends own own' → Sound own cs → Sound own' cs
  unfolding Sound
  Sound-Extends own own' [] e s = tt
  Sound-Extends own own' (map_page root va phys flags ∷ cs) e s =
      (e root _ s.0, s.1, Sound-Extends own own' cs e s.2)
  Sound-Extends own own' (protect_page root va flags ∷ cs) e s =
      (e root _ s.0, Sound-Extends own own' cs e s.1)
  Sound-Extends own own' (unmap_page root va ∷ cs) e s =
      (e root _ s.0, Sound-Extends own own' cs e s.1)

  Kept : Owner → Vm → Type 0
  Kept own vm = (own' : Owner) × Extends own own' × IsTree a offset own' vm

  after :
      (own : Owner) (cs : List Call) (va : ℕ) (vm vm' : Vm)
      → Changes a offset law off own va vm vm'
      → ((own' : Owner) → Sound own' cs → IsTree a offset own' vm' → Kept own' (run cs vm'))
      → Sound own cs
      → Kept own (run cs vm')
  unfolding Kept
  after own cs va vm vm' c next s =
      let (own', e, t) = next c.own' (Sound-Extends own c.own' cs c.extends s) c.tree in
      (own', (λ u q o. e u q (c.extends u q o)), t)

  -- Any sequence of the calls keeps the tables trees, with the tables that there were in their
  -- places.
  pub run-IsTree :
      (own : Owner) (cs : List Call) (vm : Vm)
      → IsTree a offset own vm
      → Sound own cs
      → (own' : Owner) × Extends own own' × IsTree a offset own' (run cs vm)
  unfolding run Sound Kept
  run-IsTree own [] vm tree s = (own, (λ u q o. o), tree)
  run-IsTree own (map_page root va phys flags ∷ cs) vm tree s =
      after own cs va vm _ (map_result a offset law off own root va vm tree s.0 phys flags s.1).0
        (λ o t r. run-IsTree o cs (map_page_4k a offset root va phys flags vm).1 r t) s.2
  run-IsTree own (protect_page root va flags ∷ cs) vm tree s =
      after own cs va vm _ (protect_result a offset law off own root va vm tree s.0 flags).0
        (λ o t r. run-IsTree o cs (protect_page_4k a offset root va flags vm).1 r t) s.1
  run-IsTree own (unmap_page root va ∷ cs) vm tree s =
      after own cs va vm _ (unmap_result a offset law off own root va vm tree s.0).0
        (λ o t r. run-IsTree o cs (unmap_page_4k a offset root va vm).1 r t) s.1

  -- After a `map_page_4k` that returns 0, the address space finds every address of the page in the
  -- page of physical memory given, at the same offset.
  pub map_page_4k-vm_user_to_kernel :
      (own : Owner) (root va phys va' : ℕ) (flags : VmFlags) (vm : Vm)
      → IsTree a offset own vm
      → own root ≡ some (3, 0)
      → Frame phys
      → (map_page_4k a offset root va phys flags vm).0 ≡ true
      → SamePage va' va
      → vm_user_to_kernel a offset root va' (map_page_4k a offset root va phys flags vm).1
        ≡ some (to_virt a offset (phys + va' % 4096))
  map_page_4k-vm_user_to_kernel own root va phys va' flags vm tree top frame e h =
      (map_result a offset law off own root va vm tree top phys flags frame).1 e va' h

  -- Whatever `map_page_4k` and `unmap_page_4k` of an address return, an address in another page is
  -- found where it was, in every address space.
  pub map_page_4k_others :
      (own : Owner) (root other va phys va' : ℕ) (flags : VmFlags) (vm : Vm)
      → IsTree a offset own vm
      → own root ≡ some (3, 0)
      → own other ≡ some (3, 0)
      → Frame phys
      → ¬ SamePage va' va
      → (vm_user_to_kernel a offset other va' (map_page_4k a offset root va phys flags vm).1
          ≡ vm_user_to_kernel a offset other va' vm)
        × (vm_user_to_kernel a offset other va' (unmap_page_4k a offset root va vm).1
            ≡ vm_user_to_kernel a offset other va' vm)
  map_page_4k_others own root other va phys va' flags vm tree top top' frame n = (
    (map_result a offset law off own root va vm tree top phys flags frame).0.others va' other top'
        n,
    (unmap_result a offset law off own root va vm tree top).0.others va' other top' n,
  )

  -- `map_page_4k` returns 0 when `page_alloc` has three more pages.
  pub map_page_4k_succeeds :
      (own : Owner) (root va phys : ℕ) (flags : VmFlags) (vm : Vm)
      → IsTree a offset own vm
      → own root ≡ some (3, 0)
      → Frame phys
      → 3 ≤ length vm.pool
      → (map_page_4k a offset root va phys flags vm).0 ≡ true
  map_page_4k_succeeds own root va phys flags vm tree top frame enough =
      elim (Bool-cases (map_page_4k a offset root va phys flags vm).0) [
        | inl y ↦ y
        | inr n ↦
            let few =
              ((map_result a offset law off own root va vm tree top phys flags frame).2 n).1 in
            absurd (omega arith)
      ]

  -- When `map_page_4k` returns -1, every address is found where it was, in every address space.
  pub map_page_4k_fails :
      (own : Owner) (root other va phys va' : ℕ) (flags : VmFlags) (vm : Vm)
      → IsTree a offset own vm
      → own root ≡ some (3, 0)
      → own other ≡ some (3, 0)
      → Frame phys
      → (map_page_4k a offset root va phys flags vm).0 ≡ false
      → vm_user_to_kernel a offset other va' (map_page_4k a offset root va phys flags vm).1
        ≡ vm_user_to_kernel a offset other va' vm
  map_page_4k_fails own root other va phys va' flags vm tree top top' frame e =
      ((map_result a offset law off own root va vm tree top phys flags frame).2 e).0 va' other top'

  -- After an `unmap_page_4k` that returns 0, no address of the page is found.
  pub unmap_page_4k-vm_user_to_kernel :
      (own : Owner) (root va va' : ℕ) (vm : Vm)
      → IsTree a offset own vm
      → own root ≡ some (3, 0)
      → (unmap_page_4k a offset root va vm).0 ≡ true
      → SamePage va' va
      → vm_user_to_kernel a offset root va' (unmap_page_4k a offset root va vm).1 ≡ none
  unmap_page_4k-vm_user_to_kernel own root va va' vm tree top e h =
      (unmap_result a offset law off own root va vm tree top).1 e va' h

  -- Whatever `protect_page_4k` returns, and whether or not it splits huge pages, every address is
  -- found where it was, in every address space.
  pub protect_page_4k-vm_user_to_kernel :
      (own : Owner) (root other va va' : ℕ) (flags : VmFlags) (vm : Vm)
      → IsTree a offset own vm
      → own root ≡ some (3, 0)
      → own other ≡ some (3, 0)
      → vm_user_to_kernel a offset other va' (protect_page_4k a offset root va flags vm).1
        ≡ vm_user_to_kernel a offset other va' vm
  protect_page_4k-vm_user_to_kernel own root other va va' flags vm tree top top' =
      (protect_result a offset law off own root va vm tree top flags).1 va' other top'
