-- ===== src/Text/Tests.antt =====
-- The string and number routines of src/lib at small inputs, with their theorems there.
use utopia.Base.{ℕ, ◌≤◌, ◌≡◌, refl, List, [], ◌∷◌, arith, length}
use utopia.Text.{strlen, str_reverse, ultoa}
use utopia.Text.Digits.{parse, ultoa-parse}

abbrev ram : List ℕ
ram = b'r' ∷ b'a' ∷ b'm' ∷ []

abbrev ramfs : List ℕ
ramfs = b'r' ∷ b'a' ∷ b'm' ∷ b'f' ∷ b's' ∷ []

ultoa_hex : ultoa 48879 16 ≡ (b'b' ∷ b'e' ∷ b'e' ∷ b'f' ∷ [], 4)
unfolding ultoa
ultoa_hex = refl

reverse_run : str_reverse 3 ramfs ≡ b'm' ∷ b'a' ∷ b'r' ∷ b'f' ∷ b's' ∷ []
unfolding str_reverse
reverse_run = refl

strlen_run : strlen ramfs ≡ 5
unfolding strlen
strlen_run = refl

ultoa-parse_example :
    (parse 10 0 (ultoa 65535 10).0 ≡ 65535)
    × (length (ultoa 65535 10).0 ≡ (ultoa 65535 10).1)
    × ((ultoa 65535 10).1 ≤ 5)
ultoa-parse_example =
    ultoa-parse 65535 10 5 (omega arith) (omega arith) (omega arith) (omega arith) (omega arith)
