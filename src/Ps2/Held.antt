-- ===== src/Ps2/Held.antt =====
-- The shift keys of src/drivers/keyboard/ps2.c after any number of interrupts.
use utopia.Base.{
  ℕ, ◌+◌, ◌%◌, ◌<◌, ◌≡◌, refl, ap, ◌∙◌, Bool, true, false, List, [], ◌∷◌, arith, ◌==◌,
  if◌then◌else◌,
}
use utopia.Keyboard.{Keyboard}
use utopia.Ps2.{Shift, interrupt_handler, interrupts}

-- The state of the key `key` after the scancodes that `ports` gave: the last press or release of
-- it counts, `before` if there is none.
pub held : ℕ → Bool → List (ℕ × ℕ) → Bool
held key before [] = before
held key before ((status, value) ∷ ps) =
    held key
      (if status % 2 == 0
        then before
        else if value == key
        then true
        else if value == key + 128
        then false
        else before)
      ps

step :
    (status value : ℕ) (s : Shift) (k : Keyboard)
    → value < 256
    → let s' = (interrupt_handler (status, value) (s, k)).0 in
      (s'.left ≡ (
        if status % 2 == 0
        then s.left
        else if value == 0x2A
        then true
        else if value == 0xAA
        then false
        else s.left))
      × (s'.right ≡ (
          if status % 2 == 0
          then s.right
          else if value == 0x36
          then true
          else if value == 0xB6
          then false
          else s.right))
unfolding interrupt_handler
step status value s k h = ground arith

abbrev pub Bytes : List (ℕ × ℕ) → Type 0
Bytes [] = Unit {0}
Bytes ((status, value) ∷ ps) = (value < 256) × Bytes ps

-- After any interrupts the two flags tell whether the last event of the left and of the right shift
-- key was a press; reads of a port that has no scancode do not count.
pub interrupts-held :
    (ports : List (ℕ × ℕ)) (s : Shift) (k : Keyboard)
    → Bytes ports
    → ((interrupts ports (s, k)).0.left ≡ held 0x2A s.left ports)
      × ((interrupts ports (s, k)).0.right ≡ held 0x36 s.right ports)
unfolding interrupts held
interrupts-held [] s k b = (refl, refl)
interrupts-held ((status, value) ∷ ps) s k b =
    let s' = interrupt_handler (status, value) (s, k) in
    let (l, r) = step status value s k b.0 in
    let (lh, rh) = interrupts-held ps s'.0 s'.1 b.1 in
    (lh ∙ ap (λ x. held 0x2A x ps) l, rh ∙ ap (λ x. held 0x36 x ps) r)
