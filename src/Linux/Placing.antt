-- ===== src/Linux/Placing.antt =====
-- mmap of src/exec/syscalls/linux/memory.c: where the block that it mapped is found.
use utopia.Base.{
  ℕ, ◌+◌, ◌-◌, ◌*◌, ◌/◌, ◌%◌, ◌^◌, ◌≤◌, ◌<◌, ◌≡◌, refl, sym, ap, ◌∙◌, subst, inl, inr, Bool, true,
  false, ◌&&◌, Option, none, some, List, arith, ltb, leb, ◌==◌, if◌then◌else◌, Bool-cases, add64, ℤ,
  pos, negsuc,
}
use mathlib.Core.Option
use utopia.Paging.{VmFlags, Arch, IsLawful}
use utopia.Vmm.{Vm, to_phys, vm_user_to_kernel}
use utopia.Vmm.UserSpace.{free}
use utopia.Vmm.Trees.{Owner, IsTree}
use utopia.Vmm.Linking.{through_phys}
use utopia.Linux.{FileOps, FileDesc, ebadf}
use utopia.Linux.Memory.{Process, page_align_up}
use utopia.Linux.Mmap.{
  Source, anonymous, file, closed, outside, Mmapped, source_of, map_flags, target_vaddr, advanced,
  block_contents, map_block, map_at, mmap,
}
use utopia.Linux.Blocks.{block-Placed}

-- The value of a result that is no error.
abbrev value : ℤ → ℕ
value (pos n) = n
value (negsuc n) = 0

-- No target is 0, the result of a failure.
not_target : {A : Type 0} (target : ℕ) → 0 < target → pos 0 ≡ pos target → A
not_target target h e = let z : 0 ≡ target = ap value e in absurd (omega (arith, z))

whole_pages : (size : ℕ) → page_align_up size / 4096 * 4096 ≡ page_align_up size
whole_pages size = omega arith

module _ {S V : Type 0} (ops : FileOps S V) (fs : S) (a : Arch) (hhdm : ℕ)
    (page_alloc : ℕ → Option ℕ) where
  module _ (p : Process) (target size : ℕ) (flags : VmFlags) (source : Source V) (offset block : ℕ)
      (vm : Vm) (m : Mmapped) (got : page_alloc (size / 4096) ≡ some block)
      (some_target : 0 < target) where
    abbrev looped : Bool × Vm
    looped = map_block a hhdm p.page_table flags (size / 4096) target (to_phys a hhdm block) vm

    -- A block put at its target is there whole.
    at_target :
        map_at ops fs a hhdm page_alloc p target size flags source offset vm ≡ some m
        → m.result ≡ pos target
        → (looped.0 ≡ true) × (m.vm ≡ looped.1)
    unfolding map_at
    at_target e r = read (block_contents ops fs source size offset) refl
      where
        read :
            (c : Option (ℕ → ℕ))
            → block_contents ops fs source size offset ≡ c
            → (looped.0 ≡ true) × (m.vm ≡ looped.1)
        read none q = absurd (Option.none-ne-some _ (sym unread ∙ e))
          where
            unread : map_at ops fs a hhdm page_alloc p target size flags source offset vm ≡ none
            unread = rw (got, map_at) (rw q refl)
        read (some bytes) q = elim (Bool-cases looped.0) [
          | inl y ↦
              (y, ap (λ (s : Mmapped). s.vm) (Option.some-injective _ _ (sym e ∙ done)) ∙ rw y refl)
          | inr n ↦
              let f = ap (λ (s : Mmapped). s.result) (Option.some-injective _ _ (sym e ∙ done)) in
              not_target target some_target (sym (f ∙ rw n refl) ∙ r)
        ]
          where
            done :
                map_at ops fs a hhdm page_alloc p target size flags source offset vm
                ≡ some (record {
                  result = if looped.0 then pos target else pos 0;
                  process = p;
                  vm = if looped.0 then looped.1 else free block looped.1;
                  contents = bytes;
                })
            done = rw (got, map_at) (rw q refl)

  module _ (p : Process) (fds : List (FileDesc V)) (addr size prot flags : ℕ) (fd : ℤ) (offset : ℕ)
      (vm : Vm) (m : Mmapped) where
    -- A call that returned its target put a block there.
    at_source :
        0 < target_vaddr p addr
        → mmap ops fs a hhdm page_alloc p fds addr size prot flags fd offset vm ≡ some m
        → m.result ≡ pos (target_vaddr p addr)
        → (source : Source V) × (map_at ops fs a hhdm page_alloc
              (advanced p addr (page_align_up size))
              (target_vaddr p addr)
              (page_align_up size)
              (map_flags prot)
              source
              offset
              vm
            ≡ some m)
    unfolding mmap
    at_source h e r = elim (Bool-cases (size == 0)) [
      | inl y ↦
          not_target (target_vaddr p addr) h
            (ap (λ (s : Mmapped). s.result) (Option.some-injective _ _ (sym (nothing y) ∙ e)) ∙ r)
      | inr n ↦ from n (source_of flags fd fds) refl
    ]
      where
        nothing :
            (size == 0) ≡ true
            → mmap ops fs a hhdm page_alloc p fds addr size prot flags fd offset vm
              ≡ some (record { result = pos 0; process = p; vm = vm; contents = λ k. 0 })
        nothing y = rw (y, mmap) refl

        from :
            (size == 0) ≡ false
            → (source : Source V) → source_of flags fd fds ≡ source
            → (source : Source V) × (map_at ops fs a hhdm page_alloc
                  (advanced p addr (page_align_up size))
                  (target_vaddr p addr)
                  (page_align_up size)
                  (map_flags prot)
                  source
                  offset
                  vm
                ≡ some m)
        from n anonymous q =
            let z : mmap ops fs a hhdm page_alloc p fds addr size prot flags fd offset vm
                ≡ map_at ops fs a hhdm page_alloc (advanced p addr (page_align_up size))
                    (target_vaddr p addr) (page_align_up size) (map_flags prot) anonymous offset
                    vm =
              rw (n, mmap) (rw q refl) in
            (anonymous, sym z ∙ e)
        from n (file v) q =
            let z : mmap ops fs a hhdm page_alloc p fds addr size prot flags fd offset vm
                ≡ map_at ops fs a hhdm page_alloc (advanced p addr (page_align_up size))
                    (target_vaddr p addr) (page_align_up size) (map_flags prot) (file v) offset vm =
              rw (n, mmap) (rw q refl) in
            (file v, sym z ∙ e)
        from n closed q =
            let z : mmap ops fs a hhdm page_alloc p fds addr size prot flags fd offset vm
                ≡ some (record {
                  result = ebadf;
                  process = advanced p addr (page_align_up size);
                  vm = vm;
                  contents = λ k. 0;
                }) =
              rw (n, mmap) (rw q refl) in
            let w : 0 ≡ target_vaddr p addr =
              ap (λ (s : Mmapped). value s.result) (Option.some-injective _ _ (sym z ∙ e))
              ∙ ap value r in
            absurd (omega (arith, w))
        from n outside q =
            let z : mmap ops fs a hhdm page_alloc p fds addr size prot flags fd offset vm ≡ none =
              rw (n, mmap) (rw q refl) in
            absurd (Option.none-ne-some _ (sym z ∙ e))

  advanced-root : (p : Process) (addr size : ℕ) → (advanced p addr size).page_table ≡ p.page_table
  unfolding advanced
  advanced-root p addr size = elim (Bool-cases (addr == 0)) [
    | inl y ↦ rw (y, advanced) refl
    | inr n ↦ rw (n, advanced) refl
  ]

  module _ (law : IsLawful a) (off : hhdm < 2 ^ 64) where
    -- An `mmap` that returns its target, which is not 0, shows the block that `page_alloc` gave at the
    -- addresses from the target on, as many as the length rounded up to whole pages, and every other
    -- address is found where it was. Target and block start pages, and both end where addresses do.
    pub mmap-vm_user_to_kernel :
        (own : Owner) (p : Process) (fds : List (FileDesc V)) (addr size prot flags : ℕ) (fd : ℤ)
        (offset block x : ℕ) (vm : Vm) (m : Mmapped)
        → IsTree a hhdm own vm
        → own p.page_table ≡ some (3, 0)
        → page_alloc (page_align_up size / 4096) ≡ some block
        → block < 2 ^ 64
        → to_phys a hhdm block % 4096 ≡ 0
        → to_phys a hhdm block + page_align_up size ≤ 2 ^ 52
        → target_vaddr p addr % 4096 ≡ 0
        → target_vaddr p addr + page_align_up size ≤ 2 ^ 48
        → 0 < target_vaddr p addr
        → x < 2 ^ 48
        → mmap ops fs a hhdm page_alloc p fds addr size prot flags fd offset vm ≡ some m
        → m.result ≡ pos (target_vaddr p addr)
        → vm_user_to_kernel a hhdm p.page_table x m.vm ≡ (
            if leb (target_vaddr p addr) x && ltb x (target_vaddr p addr + page_align_up size)
            then some (add64 block (x - target_vaddr p addr))
            else vm_user_to_kernel a hhdm p.page_table x vm)
    mmap-vm_user_to_kernel own p fds addr size prot flags fd offset block x vm m tree top got small
          start end al b h low e r =
        let (source, at) = at_source p fds addr size prot flags fd offset vm m h e r in
        let (ok, same) =
          at_target (advanced p addr (page_align_up size)) (target_vaddr p addr)
            (page_align_up size) (map_flags prot) source offset block vm m got h at r in
        let root = advanced-root p addr (page_align_up size) in
        let done =
          block-Placed a hhdm law off (advanced p addr (page_align_up size)).page_table
            (map_flags prot) (page_align_up size / 4096) (target_vaddr p addr)
            (to_phys a hhdm block) own vm al (omega (arith, b)) start (omega (arith, end)) tree
            (ap own root ∙ top) ok in
        subst
          (λ t. vm_user_to_kernel a hhdm t x m.vm ≡ (
            if leb (target_vaddr p addr) x && ltb x (target_vaddr p addr + page_align_up size)
            then some (add64 block (x - target_vaddr p addr))
            else vm_user_to_kernel a hhdm t x vm))
          root
          (ap (vm_user_to_kernel a hhdm (advanced p addr (page_align_up size)).page_table x) same
            ∙ elim (Bool-cases
                (leb (target_vaddr p addr) x && ltb x (target_vaddr p addr + page_align_up size))) [
                  | inl y ↦ rw y (
                      done.found x (ground arith) (ground (arith, whole_pages size))
                      ∙ ap some (through_phys a hhdm law off block (x - target_vaddr p addr) small))
                  | inr f ↦ rw f (done.others x low (ground (arith, whole_pages size)))
                ])
