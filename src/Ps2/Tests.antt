-- ===== src/Ps2/Tests.antt =====
-- The handler of src/drivers/keyboard/ps2.c at a few scancodes.
use utopia.Base.{ℕ, ◌≡◌, refl, true, false, some, List, [], ◌∷◌, replicate}
use utopia.Keyboard.{Keyboard}
use utopia.Ps2.{Shift, decode}

abbrev blank : Keyboard
blank = record { buf = replicate 256 0; head = 0; tail = 0 }

abbrev released : Shift
released = record { left = false; right = false }

shifted_a :
    decode 0x1E (record { left = true; right = false })
    ≡ (record { left = true; right = false }, some b'A')
unfolding decode
shifted_a = refl

-- Left down, a port without a scancode, right down, left up.
abbrev ports : List (ℕ × ℕ)
ports = (1, 0x2A) ∷ (0, 0xAA) ∷ (1, 0x36) ∷ (1, 0xAA) ∷ []
