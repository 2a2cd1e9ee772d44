-- ===== src/Keyboard/Tests.antt =====
-- Runs of the ring of src/drivers/keyboard/keyboard.c, and its theorems there.
use utopia.Base.{ℕ, ◌≡◌, refl, List, [], ◌∷◌, ◌++◌, arith, ◌==◌, if◌then◌else◌, length, replicate}
use utopia.Keyboard.{Keyboard, newline, push, keyboard_read, handle_keypress}
use utopia.Keyboard.Queue.{IsValid, queue, push-queue}
use utopia.Keyboard.Read.{Reads, keyboard_read-Reads, flat}

abbrev blank : Keyboard
blank = record { buf = replicate 256 0; head = 255; tail = 255 }

blank-IsValid : IsValid blank
blank-IsValid = record { full_length = refl; head_in = omega arith; tail_in = omega arith }

-- Two characters, across the end of the buffer.
abbrev typed : Keyboard
typed = record { buf = 98 ∷ replicate 254 0 ++ (97 ∷ []); head = 1; tail = 255 }

typed-IsValid : IsValid typed
typed-IsValid = record { full_length = refl; head_in = omega arith; tail_in = omega arith }

queue-typed : queue typed ≡ 97 ∷ 98 ∷ []
queue-typed = refl

carriage_return : handle_keypress 13 blank ≡ push newline blank
unfolding handle_keypress
carriage_return = refl

push-queue_example :
    IsValid (push 97 blank)
    × (queue (push 97 blank)
        ≡ (if length (queue blank) == 255 then queue blank else queue blank ++ (97 ∷ [])))
push-queue_example = push-queue 97 blank blank-IsValid

-- "ab" is there, "c" and a newline arrive later, and "d" stays for the next read.
abbrev later : List (List ℕ)
later = (99 ∷ []) ∷ (newline ∷ 100 ∷ []) ∷ []

keyboard_read-Reads_example : Reads 80 (queue typed ++ flat later) (keyboard_read 80 typed later)
keyboard_read-Reads_example = keyboard_read-Reads 80 typed later typed-IsValid (omega arith)
