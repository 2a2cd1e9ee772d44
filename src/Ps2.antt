-- ===== src/Ps2.antt =====
-- The interrupt handler of src/drivers/keyboard/ps2.c. What the two ports read is an argument.
pub mod Held
mod Tests
use utopia.Base.{
  ℕ, ◌%◌, Bool, true, false, ◌||◌, Option, none, some, List, ◌∷◌, leb, ◌==◌, if◌then◌else◌, get_or,
  [],
}
use utopia.Keyboard.{Keyboard, handle_keypress}

-- `keymap` and `shift_keymap`; the rest of the 128 entries is 0.
abbrev pub keymap : List ℕ
keymap =
    0 ∷ 27 ∷ b'1' ∷ b'2' ∷ b'3' ∷ b'4' ∷ b'5' ∷ b'6' ∷ b'7' ∷ b'8' ∷ b'9' ∷ b'0' ∷ b'-' ∷ b'=' ∷ 8
    ∷ 9 ∷ b'q' ∷ b'w' ∷ b'e' ∷ b'r' ∷ b't' ∷ b'y' ∷ b'u' ∷ b'i' ∷ b'o' ∷ b'p' ∷ b'[' ∷ b']' ∷ 10 ∷ 0
    ∷ b'a' ∷ b's' ∷ b'd' ∷ b'f' ∷ b'g' ∷ b'h' ∷ b'j' ∷ b'k' ∷ b'l' ∷ b';' ∷ 39 ∷ b'`' ∷ 0 ∷ 92
    ∷ b'z' ∷ b'x' ∷ b'c' ∷ b'v' ∷ b'b' ∷ b'n' ∷ b'm' ∷ b',' ∷ b'.' ∷ b'/' ∷ 0 ∷ b'*' ∷ 0 ∷ b' ' ∷ 0
    ∷ 0 ∷ 0 ∷ 0 ∷ 0 ∷ 0 ∷ 0 ∷ 0 ∷ 0 ∷ 0 ∷ 0 ∷ 0 ∷ b'-' ∷ 0 ∷ 0 ∷ 0 ∷ b'+' ∷ []

abbrev pub shift_keymap : List ℕ
shift_keymap =
    0 ∷ 27 ∷ b'!' ∷ b'@' ∷ b'#' ∷ b'$' ∷ b'%' ∷ b'^' ∷ b'&' ∷ b'*' ∷ b'(' ∷ b')' ∷ b'_' ∷ b'+' ∷ 8
    ∷ 9 ∷ b'Q' ∷ b'W' ∷ b'E' ∷ b'R' ∷ b'T' ∷ b'Y' ∷ b'U' ∷ b'I' ∷ b'O' ∷ b'P' ∷ b'{' ∷ b'}' ∷ 10 ∷ 0
    ∷ b'A' ∷ b'S' ∷ b'D' ∷ b'F' ∷ b'G' ∷ b'H' ∷ b'J' ∷ b'K' ∷ b'L' ∷ b':' ∷ 34 ∷ b'~' ∷ 0 ∷ b'|'
    ∷ b'Z' ∷ b'X' ∷ b'C' ∷ b'V' ∷ b'B' ∷ b'N' ∷ b'M' ∷ b'<' ∷ b'>' ∷ b'?' ∷ 0 ∷ b'*' ∷ 0 ∷ b' ' ∷ 0
    ∷ 0 ∷ 0 ∷ 0 ∷ 0 ∷ 0 ∷ 0 ∷ 0 ∷ 0 ∷ 0 ∷ 0 ∷ 0 ∷ b'-' ∷ 0 ∷ 0 ∷ 0 ∷ b'+' ∷ []

-- `SHIFT_LEFT_PRESSED` and `SHIFT_RIGHT_PRESSED`
pub record Shift : Type 0 where
  pub left : Bool
  pub right : Bool

-- `read_scancode`, from what the ports 0x64 and 0x60 read.
pub read_scancode : ℕ → ℕ → ℕ
read_scancode status value = if status % 2 == 0 then 0 else value

-- What a scancode does: it may change the shift keys, and may be a character.
pub decode : ℕ → Shift → Shift × Option ℕ
decode scancode s =
    let key = scancode % 128 in
    if key == 0
    then (s, none)
    else if leb 128 scancode
    then (
      if key == 0x2A
          then record s { left = false }
          else if key == 0x36
          then record s { right = false }
          else s,
      none,
    )
    else if key == 0x2A
    then (record s { left = true }, none)
    else if key == 0x36
    then (record s { right = true }, none)
    else (s, some (if s.left || s.right then get_or shift_keymap key 0 else get_or keymap key 0))

abbrev press : Option ℕ → Keyboard → Keyboard
press none k = k
press (some c) k = handle_keypress c k

-- `ps2_interrupt_handler`; each port reads a byte.
pub interrupt_handler : ℕ × ℕ → Shift × Keyboard → Shift × Keyboard
unfolding read_scancode decode
interrupt_handler (status, value) (s, k) =
    let (s', c) = decode (read_scancode status value) s in (s', press c k)

pub interrupts : List (ℕ × ℕ) → Shift × Keyboard → Shift × Keyboard
unfolding interrupt_handler
interrupts [] state = state
interrupts (p ∷ ps) state = interrupts ps (interrupt_handler p state)
