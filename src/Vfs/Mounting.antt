-- ===== src/Vfs/Mounting.antt =====
-- The tables of drivers and mounts of src/fs/vfs.c.
use utopia.Base.{
  ℕ, ◌≤◌, ◌<◌, ◌≡◌, refl, ◌⊎◌, inl, inr, Bool, true, false, Option, none, some, List, [], ◌∷◌, ◌++◌,
  arith, leb, if◌then◌else◌, Bool-cases, Option-cases, length, length-append, is_zero,
}
use utopia.Text.{strcmp}
use utopia.Vfs.{
  Driver, Registry, max_drivers, max_mounts, register_driver, find_driver, finish_mount, mount,
}

module _ {V : Type 0} where
  -- Neither table is longer than its array.
  unfoldable pub Bounded : Registry V → Type 0
  Bounded r = (length r.drivers ≤ max_drivers) × (length r.mounts ≤ max_mounts)

  find_driver-append :
      (ds : List (Driver V)) (d : Driver V) (type : List ℕ)
      → find_driver (ds ++ (d ∷ [])) type ≡ elim (find_driver ds type) as (λ x. Option (Driver V)) [
        | some e ↦ some e
        | none ↦ if is_zero (strcmp d.name type) then some d else none
      ]
  unfolding find_driver
  find_driver-append [] d type = refl
  find_driver-append (e ∷ ds) d type = elim (Bool-cases (is_zero (strcmp e.name type))) [
    | inl y ↦ rw (y, find_driver)
    | inr n ↦ rw (n, find_driver) (find_driver-append ds d type)
  ]

  -- Drivers are found in the order in which they were registered: a new one only when no earlier one
  -- has the name that is asked for.
  pub find_driver-register_driver :
      (r : Registry V) (d : Driver V) (type : List ℕ)
      → length r.drivers < max_drivers
      → ((register_driver (some d) r).0 ≡ true)
        × (find_driver (register_driver (some d) r).1.drivers type
            ≡ elim (find_driver r.drivers type) as (λ x. Option (Driver V)) [
              | some e ↦ some e
              | none ↦ if is_zero (strcmp d.name type) then some d else none
            ])
  unfolding register_driver
  find_driver-register_driver r d type room =
      let fits : leb max_drivers (length r.drivers) ≡ false = ground arith in
      rw fits (refl, find_driver-append r.drivers d type)

  pub with_mount : Registry V → Driver V → Option V → Registry V
  with_mount r d root = record r {
    mounts = r.mounts ++ (record { root = root; driver = d.name } ∷ []);
  }

  finish_mount-cases :
      (d : Driver V) (source target : List ℕ) (r : Registry V)
      → (finish_mount d source target r ≡ (false, r))
        ⊎ ((root : Option V) × (finish_mount d source target r ≡ (true, with_mount r d root)))
  unfolding finish_mount with_mount
  finish_mount-cases d source target r = elim (Option-cases d.mount) [
    | inl e ↦ inl (rw e refl)
    | inr (f, e) ↦ elim (Option-cases (f source target)) [
      | inl g ↦ inl (rw (e, g) refl)
      | inr (root, g) ↦ inr (root, rw (e, g) refl)
    ]
  ]

  -- `vfs_mount` either fails and leaves the tables as they are, or it succeeds: then the type is
  -- registered, the table had room, and the mount of the driver found for it, with the root that the
  -- driver set, is added behind those before it.
  pub mount-cases :
      (alloc : Bool) (type source target : List ℕ) (r : Registry V)
      → (mount alloc type source target r ≡ (false, r))
        ⊎ ((d : Driver V) × (root : Option V) × (find_driver r.drivers type ≡ some d)
            × (length r.mounts < max_mounts)
            × (mount alloc type source target r ≡ (true, with_mount r d root)))
  unfolding mount
  mount-cases alloc type source target r = elim (Option-cases (find_driver r.drivers type)) [
    | inl e ↦ inl (rw (mount, e) refl)
    | inr (d, e) ↦ elim (Bool-cases (leb max_mounts (length r.mounts))) [
      | inl y ↦ inl (rw (mount, e, y) refl)
      | inr n ↦ elim (Bool-cases alloc) [
        | inr z ↦ inl (rw (mount, e, n, z) refl)
        | inl a ↦ elim (finish_mount-cases d source target r) [
          | inl g ↦ inl (rw (mount, e, n, a) g)
          | inr (root, g) ↦ inr (d, root, e, ground arith, rw (mount, e, n, a) g)
        ]
      ]
    ]
  ]

  -- `vfs_register_driver` and `vfs_mount` write within the arrays, whatever they are called with.
  pub register_driver-mount-Bounded :
      (d : Option (Driver V)) (alloc : Bool) (type source target : List ℕ) (r : Registry V)
      → Bounded r
      → Bounded (register_driver d r).1 × Bounded (mount alloc type source target r).1
  unfolding Bounded register_driver with_mount
  register_driver-mount-Bounded d alloc type source target r b = (registered d, mounted)
    where
      registered : (d : Option (Driver V)) → Bounded (register_driver d r).1
      registered none = b
      registered (some d) = ground (arith, length-append r.drivers (d ∷ []))

      mounted : Bounded (mount alloc type source target r).1
      mounted = elim (mount-cases alloc type source target r) [
        | inl e ↦ rw e b
        | inr (d, root, e, room, m) ↦ rw m (
          b.0,
          omega (arith, length-append r.mounts (record { root = root; driver = d.name } ∷ [])),
        )
      ]
