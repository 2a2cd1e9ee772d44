-- ===== src/Paging.antt =====
-- Page table entries: the interface of include/arch/memory.h that src/mm/vmm.c is written against,
-- with the laws that it relies on. The children fill it for the two architectures.
pub mod X86
pub mod Riscv
pub mod Laws
mod Tests
use utopia.Base.{ℕ, suc, ◌%◌, ◌^◌, ◌<◌, ◌≡◌, Bool, true, false}

-- `vm_flags_t`
pub record VmFlags : Type 0 where
  pub write : Bool
  pub user : Bool
  pub exec : Bool
  pub global : Bool

-- The functions `arch_pte_table` and so on. An entry is a word.
pub record Arch : Type 0 where
  pub table : ℕ → ℕ
  pub leaf : ℕ → VmFlags → Bool → ℕ
  pub with_flags : ℕ → VmFlags → ℕ
  pub set_exec : ℕ → Bool → ℕ
  pub child_leaf : ℕ → ℕ → ℕ → ℕ
  pub with_phys : ℕ → ℕ → ℕ
  pub present : ℕ → Bool
  pub is_leaf : ℕ → ℕ → Bool
  pub phys : ℕ → ℕ

-- A page-aligned physical address that an entry can hold.
abbrev pub Frame : ℕ → Type 0
Frame x = (x % 4096 ≡ 0) × (x < 2 ^ 52)

-- What the page table code needs of the entries, level 0 being the last.
pub record IsLawful (a : Arch) : Type 0 where
  pub present_zero : a.present 0 ≡ false
  pub table_present : (x : ℕ) → Frame x → a.present (a.table x) ≡ true
  pub table_inner : (x l : ℕ) → Frame x → a.is_leaf (a.table x) (suc l) ≡ false
  pub table_phys : (x : ℕ) → Frame x → a.phys (a.table x) ≡ x
  pub leaf_present : (x : ℕ) (f : VmFlags) (h : Bool) → a.present (a.leaf x f h) ≡ true
  pub leaf_is_leaf : (x l : ℕ) (f : VmFlags) → Frame x → a.is_leaf (a.leaf x f true) (suc l) ≡ true
  pub leaf_phys : (x : ℕ) (f : VmFlags) (h : Bool) → Frame x → a.phys (a.leaf x f h) ≡ x
  pub leaf_again : (e : ℕ) (f : VmFlags) (h : Bool) → a.phys (a.leaf (a.phys e) f h) ≡ a.phys e
  pub child_present :
      (e x l : ℕ) → Frame x → a.present e ≡ true → a.present (a.child_leaf e x l) ≡ true
  pub child_is_leaf :
      (e x l : ℕ)
      → Frame x
      → a.is_leaf e (suc (suc l)) ≡ true
      → a.is_leaf (a.child_leaf e x (suc l)) (suc l) ≡ true
  pub child_phys : (e x l : ℕ) → Frame x → a.phys (a.child_leaf e x l) ≡ x
  pub flags_present :
      (e : ℕ) (f : VmFlags) → a.present e ≡ true → a.present (a.with_flags e f) ≡ true
  pub flags_is_leaf :
      (e l : ℕ) (f : VmFlags) → a.is_leaf e l ≡ true → a.is_leaf (a.with_flags e f) l ≡ true
  pub flags_phys : (e : ℕ) (f : VmFlags) → a.phys (a.with_flags e f) ≡ a.phys e
  pub moved_present : (e x : ℕ) → a.present e ≡ true → a.present (a.with_phys e x) ≡ true
  pub moved_is_leaf : (e x l : ℕ) → Frame x → a.is_leaf (a.with_phys e x) l ≡ a.is_leaf e l
  pub moved_phys : (e x : ℕ) → Frame x → a.phys (a.with_phys e x) ≡ x
  pub exec_present : (e : ℕ) (b : Bool) → a.present (a.set_exec e b) ≡ a.present e
  pub exec_phys : (e : ℕ) (b : Bool) → a.phys (a.set_exec e b) ≡ a.phys e

-- The same rights.
abbrev pub SameRights : VmFlags → VmFlags → Type 0
SameRights r s = (r.write ≡ s.write) × (r.user ≡ s.user) × (r.exec ≡ s.exec) × (r.global ≡ s.global)

-- What the entries allow, where `rights` is how the processor reads them.
pub record KeepsRights (a : Arch) (rights : ℕ → VmFlags) : Type 0 where
  pub leaf_rights : (x : ℕ) (f : VmFlags) (h : Bool) → SameRights (rights (a.leaf x f h)) f
  pub flags_rights : (e : ℕ) (f : VmFlags) → SameRights (rights (a.with_flags e f)) f
  pub child_rights : (e x l : ℕ) → Frame x → SameRights (rights (a.child_leaf e x l)) (rights e)
  pub moved_rights : (e x : ℕ) → Frame x → SameRights (rights (a.with_phys e x)) (rights e)
  pub exec_rights :
      (e : ℕ) (b : Bool) → SameRights (rights (a.set_exec e b)) (record (rights e) { exec = b })
