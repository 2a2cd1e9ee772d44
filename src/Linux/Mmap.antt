-- ===== src/Linux/Mmap.antt =====
-- mmap of src/exec/syscalls/linux/memory.c, which takes a block of pages, reads a file into it and
-- maps it.
use utopia.Base.{
  ℕ, zero, suc, ◌-◌, ◌/◌, ◌%◌, Bool, true, false, Option, none, some, List, ltb, ◌==◌,
  if◌then◌else◌, get_elem?, get_or, add64, ℤ, pos, negsuc,
}
use utopia.Paging.{VmFlags, Arch}
use utopia.Vmm.{Vm, to_phys, map_page_4k}
use utopia.Vmm.UserSpace.{free}
use utopia.Linux.{FileOps, FileDesc, ebadf}
use utopia.Linux.Memory.{Process, page_align_up}

-- What is read into the block: nothing for an anonymous mapping, or a file. `outside` is a descriptor
-- past the table, which the source reads without a check.
pub data Source (V : Type 0) : Type 0 where
  anonymous : Source V
  file : V → Source V
  closed : Source V
  outside : Source V

-- What the call returns, leaves, and stores into the block, by the offset in it.
pub record Mmapped : Type 0 where
  pub result : ℤ
  pub process : Process
  pub vm : Vm
  pub contents : ℕ → ℕ

unfoldable pub file_at : {V : Type 0} → Option (FileDesc V) → Source V
file_at none = outside
file_at (some f) = elim f.vnode [ none ↦ closed | some v ↦ file v ]

unfoldable pub source_of : {V : Type 0} → ℕ → ℤ → List (FileDesc V) → Source V
unfolding file_at
source_of flags (negsuc n) fds = anonymous
source_of flags (pos n) fds = elim (flags / 0x20 % 2 == 1) [
  | true ↦ anonymous
  | false ↦ file_at (get_elem? fds n)
]

-- The flags of a `prot` of `mmap`.
unfoldable pub map_flags : ℕ → VmFlags
map_flags prot = record {
  write = prot / 2 % 2 == 1;
  user = true;
  exec = prot % 2 == 1;
  global = false;
}

-- Where the block goes, and the process with the next place for one.
unfoldable pub target_vaddr : Process → ℕ → ℕ
target_vaddr p addr = if addr == 0 then p.mmap_current else page_align_up addr

unfoldable pub advanced : Process → ℕ → ℕ → Process
advanced p addr size =
    if addr == 0 then record p { mmap_current = add64 p.mmap_current size } else p

module _ (a : Arch) (hhdm : ℕ) where
  -- The loop over the pages of the block, from the virtual and the physical address.
  unfoldable pub map_block : ℕ → VmFlags → ℕ → ℕ → ℕ → Vm → Bool × Vm
  unfolding map_page_4k
  map_block root flags zero va phys vm = (true, vm)
  map_block root flags (suc n) va phys vm =
      let r = map_page_4k a hhdm root va phys flags vm in
      elim r.0 [
        | false ↦ (false, r.1)
        | true ↦ map_block root flags n (add64 va 0x1000) (add64 phys 0x1000) r.1
      ]

module _ {S V : Type 0} (ops : FileOps S V) (fs : S) where
  -- The block after `memset` and the read; `none` where `ops->read` is null.
  unfoldable pub block_contents : Source V → ℕ → ℕ → Option (ℕ → ℕ)
  block_contents anonymous size offset = some (λ k. 0)
  block_contents closed size offset = some (λ k. 0)
  block_contents outside size offset = none
  block_contents (file v) size offset =
      let left = ops.size fs v - offset in
      elim (ltb offset (ops.size fs v)) [
        | false ↦ some (λ k. 0)
        | true ↦ elim (ops.read fs v) [
          | none ↦ none
          | some get ↦ some (λ k. get_or (get (if ltb size left then size else left) offset).1 k 0)
        ]
      ]

  module _ (a : Arch) (hhdm : ℕ) (page_alloc : ℕ → Option ℕ) where
    -- The block of `size` bytes with the bytes of the source at `target`.
    unfoldable pub map_at : Process → ℕ → ℕ → VmFlags → Source V → ℕ → Vm → Option Mmapped
    unfolding map_block free block_contents
    map_at p target size flags source offset vm = elim (page_alloc (size / 4096)) [
      | none ↦ some (record { result = pos 0; process = p; vm = vm; contents = λ k. 0 })
      | some block ↦ elim (block_contents source size offset) [
        | none ↦ none
        | some bytes ↦
            let r =
              map_block a hhdm p.page_table flags (size / 4096) target (to_phys a hhdm block) vm in
            some (record {
              result = if r.0 then pos target else pos 0;
              process = p;
              vm = if r.0 then r.1 else free block r.1;
              contents = bytes;
            })
      ]
    ]

    -- `mmap`; `none` where the source reads outside the table or calls a null pointer.
    unfoldable pub mmap : Process → List (FileDesc V) → ℕ → ℕ → ℕ → ℕ → ℤ → ℕ → Vm → Option Mmapped
    unfolding map_at source_of map_flags target_vaddr advanced
    mmap p fds addr size prot flags fd offset vm =
        let next = advanced p addr (page_align_up size) in
        let source = source_of flags fd fds in
        elim (size == 0) [
          | true ↦ some (record { result = pos 0; process = p; vm = vm; contents = λ k. 0 })
          | false ↦ elim source [
            | closed ↦ some (record { result = ebadf; process = next; vm = vm; contents = λ k. 0 })
            | outside ↦ none
            | anonymous ↦
                map_at next (target_vaddr p addr) (page_align_up size) (map_flags prot) anonymous
                  offset vm
            | file v ↦
                map_at next (target_vaddr p addr) (page_align_up size) (map_flags prot) (file v)
                  offset vm
          ]
        ]
