-- ===== src/Linux/HeapPages.antt =====
-- The loop of grow_process_brk of src/exec/syscalls/linux/memory.c on page tables that are trees: the
-- pages that it takes, lists and maps.
use utopia.Base.{
  ℕ, zero, suc, ◌+◌, ◌-◌, ◌*◌, ◌/◌, ◌%◌, ◌^◌, ◌≤◌, ◌<◌, ◌≡◌, refl, sym, ap, ◌∙◌, subst, ◌⊎◌, inl,
  inr, Bool, true, false, Option, none, some, List, [], ◌∷◌, ◌++◌, arith, ltb, ◌==◌, if◌then◌else◌,
  ltb→lt, Bool-cases, length, length-append, get_or, get_or-append, get_or-next, add64,
}
use mathlib.Core.Option
use utopia.Paging.{Arch, IsLawful}
use utopia.Vmm.{Vm, to_virt, to_phys, pt_pool_alloc, map_page_4k, vm_user_to_kernel}
use utopia.Vmm.Trees.{Owner, IsTree}
use utopia.Vmm.Linking.{through_phys, Extends}
use utopia.Vmm.Mapping.{SamePage, apart, other_page}
use utopia.Vmm.Calls.{Changes, map_result}
use utopia.Vmm.Taking.{without, pool-some, pool-none, taken_frame, without-IsTree, without_same}
use utopia.Vmm.UserSpace.{PageList, vm_page_list_add}
use utopia.Linux.Memory.{heap_flags, grow_pages}

-- The page is the last one of the list.
add-last :
    (room : ℕ → Bool) (l m : PageList) (page : ℕ)
    → vm_page_list_add room l page ≡ some m
    → m.pages ≡ l.pages ++ (page ∷ [])
unfolding vm_page_list_add
add-last room l m page e = elim (Bool-cases (length l.pages == l.cap)) [
  | inr n ↦ ap (λ (x : PageList). x.pages) (Option.some-injective _ _ (sym e ∙ roomy n))
  | inl y ↦ elim (Bool-cases (room (if l.cap == 0 then 64 else l.cap * 2))) [
    | inl k ↦ ap (λ (x : PageList). x.pages) (Option.some-injective _ _ (sym e ∙ larger y k))
    | inr k ↦ absurd (Option.none-ne-some _ (sym (full y k) ∙ e))
  ]
]
  where
    roomy :
        (length l.pages == l.cap) ≡ false
        → vm_page_list_add room l page ≡ some (record l { pages = l.pages ++ (page ∷ []) })
    roomy n = rw n refl

    larger :
        (length l.pages == l.cap) ≡ true
        → room (if l.cap == 0 then 64 else l.cap * 2) ≡ true
        → vm_page_list_add room l page
          ≡ some (record {
            pages = l.pages ++ (page ∷ []);
            cap = if l.cap == 0 then 64 else l.cap * 2;
          })
    larger y k = rw y (rw k refl)

    full :
        (length l.pages == l.cap) ≡ true
        → room (if l.cap == 0 then 64 else l.cap * 2) ≡ false
        → vm_page_list_add room l page ≡ none
    full y k = rw y (rw k refl)

module _ (a : Arch) (offset : ℕ) (room : ℕ → Bool) (root : ℕ) where
  abbrev grown : ℕ → ℕ → PageList → Vm → Bool × PageList × Vm
  grown n addr owned vm = grow_pages a offset room root n owned addr vm

  -- The page put into the tables.
  abbrev placed : ℕ → ℕ → Vm → Bool × Vm
  placed addr page vm = map_page_4k a offset root addr (to_phys a offset page) heap_flags vm

  grow-empty :
      (n addr : ℕ) (owned : PageList) (vm : Vm)
      → pt_pool_alloc vm ≡ none
      → (grown (suc n) addr owned vm).0 ≡ false
  unfolding grow_pages
  grow-empty n addr owned vm e = rw (e, grow_pages) refl

  module _ (n addr page : ℕ) (owned : PageList) (vm vm1 : Vm)
      (got : pt_pool_alloc vm ≡ some (page, vm1)) where
    grow-unmapped : (placed addr page vm1).0 ≡ false → (grown (suc n) addr owned vm).0 ≡ false
    unfolding grow_pages
    grow-unmapped f = rw (got, grow_pages) (rw f refl)

    grow-unlisted :
        (placed addr page vm1).0 ≡ true
        → vm_page_list_add room owned page ≡ none
        → (grown (suc n) addr owned vm).0 ≡ false
    unfolding grow_pages
    grow-unlisted y f = rw (got, grow_pages) (rw y (rw f refl))

    grow-next :
        (more : PageList)
        → (placed addr page vm1).0 ≡ true
        → vm_page_list_add room owned page ≡ some more
        → grown (suc n) addr owned vm ≡ grown n (addr + 0x1000) more (placed addr page vm1).1
    unfolding grow_pages
    grow-next more y f = rw (got, grow_pages) (rw y (rw f refl))

  -- A page that succeeded: one page was taken, mapped and listed, and the rest followed.
  data Step (n addr : ℕ) (owned : PageList) (vm : Vm) : Type 0 where
    step :
        (page : ℕ) (ns : List ℕ) (more : PageList)
        → vm.pool ≡ page ∷ ns
        → (placed addr page (without page ns vm)).0 ≡ true
        → more.pages ≡ owned.pages ++ (page ∷ [])
        → grown (suc n) addr owned vm
          ≡ grown n (addr + 0x1000) more (placed addr page (without page ns vm)).1
        → Step n addr owned vm

  grow_step :
      (n addr : ℕ) (owned : PageList) (vm : Vm)
      → (grown (suc n) addr owned vm).0 ≡ true
      → Step n addr owned vm
  grow_step n addr owned vm e = pool vm.pool refl
    where
      contradiction : (grown (suc n) addr owned vm).0 ≡ false → Step n addr owned vm
      contradiction f = let z : false ≡ true = sym f ∙ e in absurd (cc)

      listed :
          (page : ℕ) (ns : List ℕ) (r : Option PageList)
          → vm.pool ≡ page ∷ ns
          → (placed addr page (without page ns vm)).0 ≡ true
          → vm_page_list_add room owned page ≡ r
          → Step n addr owned vm
      listed page ns none p y q =
          contradiction (grow-unlisted n addr page owned vm _ (pool-some page ns vm p) y q)
      listed page ns (some more) p y q =
          step page ns more p y (add-last room owned more page q)
            (grow-next n addr page owned vm _ (pool-some page ns vm p) more y q)

      pool : (ps : List ℕ) → vm.pool ≡ ps → Step n addr owned vm
      pool [] p = contradiction (grow-empty n addr owned vm (pool-none vm p))
      pool (page ∷ ns) p = elim (Bool-cases (placed addr page (without page ns vm)).0) [
        | inr f ↦ contradiction (grow-unmapped n addr page owned vm _ (pool-some page ns vm p) f)
        | inl y ↦ listed page ns (vm_page_list_add room owned page) p y refl
      ]

module _ (a : Arch) (offset : ℕ) (room : ℕ → Bool) (law : IsLawful a) (off : offset < 2 ^ 64)
    (root : ℕ) where
  -- What the loop has done when it ended well: each page is found in the page of the list for it,
  -- the list keeps what was in it, and what is found elsewhere is unchanged.
  pub record Grown (own : Owner) (n addr : ℕ) (owned : PageList) (vm : Vm) (owned' : PageList)
      (vm' : Vm) : Type 0 where
    pub own' : Owner
    pub extends : Extends own own'
    pub tree : IsTree a offset own' vm'
    pub kept : (k : ℕ) → k < length owned.pages → get_or owned'.pages k 0 ≡ get_or owned.pages k 0
    pub found :
        (x : ℕ)
        → addr ≤ x
        → x < addr + n * 4096
        → vm_user_to_kernel a offset root x vm'
          ≡ some (add64 (get_or owned'.pages (length owned.pages + (x - addr) / 4096) 0) (x % 4096))
    pub others :
        (x : ℕ)
        → x < 2 ^ 48
        → (x < addr) ⊎ (addr + n * 4096 ≤ x)
        → vm_user_to_kernel a offset root x vm' ≡ vm_user_to_kernel a offset root x vm

  -- One page and then the rest.
  both :
      (n addr page : ℕ) (own : Owner) (owned more last : PageList) (vm : Vm) {vm1 vm2 : Vm}
      → addr % 4096 ≡ 0
      → addr + suc n * 4096 ≤ 2 ^ 48
      → own root ≡ some (3, 0)
      → page < 2 ^ 64
      → more.pages ≡ owned.pages ++ (page ∷ [])
      → (c : Changes a offset law off own addr vm vm1)
      → ((x : ℕ)
          → SamePage x addr
          → vm_user_to_kernel a offset root x vm1
            ≡ some (to_virt a offset (to_phys a offset page + x % 4096)))
      → Grown c.own' n (addr + 0x1000) more vm1 last vm2
      → Grown own (suc n) addr owned vm last vm2
  both n addr page own owned more last vm al b top small pages c here rest = record {
    own' = rest.own';
    extends = λ u q o. rest.extends u q (c.extends u q o);
    tree = rest.tree;
    kept = λ k h.
        rest.kept k (omega (arith, h, longer))
        ∙ ap (λ (l : List ℕ). get_or l k 0) pages
        ∙ get_or-append owned.pages (page ∷ []) k 0 h;
    found = λ x l u. elim (Bool-cases (ltb x (addr + 0x1000))) [
      | inl y ↦
          let k : x < addr + 0x1000 = ltb→lt x (addr + 0x1000) y in
          let first : length owned.pages + (x - addr) / 4096 ≡ length owned.pages = omega arith in
          rest.others x (omega arith) (inl k)
          ∙ here x (omega arith)
          ∙ ap some (
              through_phys a offset law off page (x % 4096) small
              ∙ ap (λ z. add64 z (x % 4096))
                  (sym listed ∙ ap (λ i. get_or last.pages i 0) (sym first)))
      | inr k ↦
          let next : length more.pages + (x - (addr + 0x1000)) / 4096
              ≡ length owned.pages + (x - addr) / 4096 =
            ground (arith, longer) in
          rest.found x (ground arith) (ground arith)
          ∙ ap (λ i. some (add64 (get_or last.pages i 0) (x % 4096))) next
    ];
    others = λ x s d.
        rest.others x s (apart n addr x d) ∙ c.others x root top (other_page n addr x al b s d);
  }
    where
      longer : length more.pages ≡ suc (length owned.pages)
      longer = ap length pages ∙ length-append owned.pages (page ∷ []) ∙ omega arith

      listed : get_or last.pages (length owned.pages) 0 ≡ page
      listed =
          rest.kept (length owned.pages) (omega (arith, longer))
          ∙ ap (λ (l : List ℕ). get_or l (length owned.pages) 0) pages
          ∙ get_or-next owned.pages page [] 0

  pub pages-Grown :
      (n addr : ℕ) (own : Owner) (owned : PageList) (vm : Vm)
      → addr % 4096 ≡ 0
      → addr + n * 4096 ≤ 2 ^ 48
      → IsTree a offset own vm
      → own root ≡ some (3, 0)
      → (grown a offset room root n addr owned vm).0 ≡ true
      → Grown own n addr owned vm
          (grown a offset room root n addr owned vm).1
          (grown a offset room root n addr owned vm).2
  unfolding grow_pages
  pages-Grown zero addr own owned vm al b tree top e = record {
    own' = own;
    extends = λ u q o. o;
    tree = tree;
    kept = λ k h. refl;
    found = λ x l u. absurd (omega arith);
    others = λ x l c. refl;
  }
  pages-Grown (suc n) addr own owned vm al b tree top e =
      elim (grow_step a offset room root n addr owned vm e) [
        | step page ns more p y pages next ↦
            let vm1 = without page ns vm in
            let (small, frame) = taken_frame a offset own page ns vm tree p in
            let (c, here, fails) =
              map_result a offset law off own root addr vm1
                (without-IsTree a offset own page ns vm tree p) top (to_phys a offset page)
                heap_flags frame in
            let c' : Changes a offset law off own addr vm
                (placed a offset room root addr page vm1).1 =
              record {
                own' = c.own';
                extends = c.extends;
                tree = c.tree;
                others =
                    λ x r o d. c.others x r o d ∙ without_same a offset own page ns vm tree p r x o;
              } in
            subst (λ (r : Bool × PageList × Vm). Grown own (suc n) addr owned vm r.1 r.2) (sym next)
              (both n addr page own owned more _ vm al b top small pages c' (here y) (
                pages-Grown n (addr + 0x1000) c.own' more
                  (placed a offset room root addr page vm1).1 (omega arith) (omega arith) c.tree
                  (c.extends root _ top) (ap (λ (r : Bool × PageList × Vm). r.0) (sym next) ∙ e)))
      ]
