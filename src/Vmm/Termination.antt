-- ===== src/Vmm/Termination.antt =====
-- The loop of map_physical_range of src/mm/vmm.c ends.
use utopia.Base.{
  ℕ, zero, suc, ◌+◌, ◌*◌, ◌/◌, ◌^◌, ◌≤◌, ◌<◌, ◌≡◌, ◌≢◌, inl, inr, true, none, arith, ltb, ltb→lt,
  Bool-cases, Option-cases, add64,
}
use mathlib.Core.Option
use utopia.Paging.{VmFlags, Arch}
use utopia.Vmm.{Vm, span, map_range, map_physical_range, reach_huge}

module _ (a : Arch) (offset root : ℕ) (flags : VmFlags) where
  -- A round that does not fail goes on with the next 2 MiB.
  round :
      (fuel addr end : ℕ) (vm : Vm)
      → ((vm1 : Vm) → (map_range a offset fuel root (add64 addr (span 1)) end flags vm1).0 ≢ none)
      → ltb addr end ≡ true
      → (map_range a offset (suc fuel) root addr end flags vm).0 ≢ none
  unfolding map_range
  round fuel addr end vm next y =
      rw (y, map_range)
        (elim (Option-cases (reach_huge a offset 2 addr root vm).0) [
          | inl e ↦ rw (e, map_range) (λ q. absurd (Option.some-ne-none _ q))
          | inr (t, e) ↦ rw (e, map_range) (next _)
        ])

  -- With a round for each 2 MiB and one more, the loop ends if the address does not wrap.
  pub map_range-ends :
      (fuel addr end : ℕ) (vm : Vm)
      → end + span 1 ≤ 2 ^ 64
      → end ≤ addr + fuel * span 1
      → (map_range a offset (suc fuel) root addr end flags vm).0 ≢ none
  unfolding map_range
  map_range-ends zero addr end vm w h = elim (Bool-cases (ltb addr end)) [
    | inr n ↦ rw (n, map_range) (λ q. absurd (Option.some-ne-none _ q))
    | inl y ↦ absurd (ground arith)
  ]
  map_range-ends (suc fuel) addr end vm w h = elim (Bool-cases (ltb addr end)) [
    | inr n ↦ rw (n, map_range) (λ q. absurd (Option.some-ne-none _ q))
    | inl y ↦
        let small : addr < end = ltb→lt addr end y in
        round (suc fuel) addr end vm
          (λ vm1. map_range-ends fuel (add64 addr (span 1)) end vm1 w (omega arith)) y
  ]

  -- `map_physical_range` ends, whatever the tables hold, when the range ends 2 MiB or more below 2^64.
  pub map_physical_range_ends :
      (phys_start size : ℕ) (vm : Vm)
      → phys_start + size + span 1 ≤ 2 ^ 64
      → (map_physical_range a offset root phys_start size flags vm).0 ≢ none
  unfolding map_physical_range
  map_physical_range_ends phys_start size vm h =
      map_range-ends (size / span 1 + 1) phys_start (add64 phys_start size) vm (omega arith)
        (omega arith)
