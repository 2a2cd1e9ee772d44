-- ===== src/Keyboard.antt =====
-- The input ring of src/drivers/keyboard/keyboard.c. The locks and the wake-up of the readers are
-- left out; what the interrupt handler pushes while a reader waits is an argument of `read`.
pub mod Queue
pub mod Read
mod Tests
use utopia.Base.{
  ℕ, zero, suc, ◌+◌, ◌-◌, ◌%◌, true, false, Option, none, some, List, ◌∷◌, ◌++◌, ◌==◌,
  if◌then◌else◌, length, get_or, set, u32_mod, [],
}

-- `KBD_BUF_SIZE`
abbrev pub buf_size : ℕ
buf_size = 256

abbrev pub newline : ℕ
newline = 10

-- `kbd_buf`, `kbd_head` and `kbd_tail`
pub record Keyboard : Type 0 where
  pub buf : List ℕ
  pub head : ℕ
  pub tail : ℕ

-- `kbd_push`: a full ring drops the character.
pub push : ℕ → Keyboard → Keyboard
push c k =
    let next = (k.head + 1) % u32_mod % buf_size in
    if next == k.tail then k else record k { buf = set k.buf k.head c; head = next }

-- `kbd_pop`
pub pop : Keyboard → Option ℕ × Keyboard
pop k =
    if k.head == k.tail
    then (none, k)
    else (some (get_or k.buf k.tail 0), record k { tail = (k.tail + 1) % u32_mod % buf_size })

-- `keyboard_handle_keypress` after its check of the key's kind, without the echo on the screen.
pub handle_keypress : ℕ → Keyboard → Keyboard
unfolding push
handle_keypress c k = if c == 0 then k else push (if c == 13 then newline else c) k

-- How the inner loop of `keyboard_read` ends: by a newline, or because the buffer is full or the
-- ring empty.
pub data Drained : Type 0 where
  line : List ℕ → Keyboard → Drained
  stopped : List ℕ → Keyboard → Drained
  out_of_fuel : Drained

-- One character in front of what the later rounds took.
pub more : ℕ → Drained → Drained
more c (line cs k) = line (c ∷ cs) k
more c (stopped cs k) = stopped (c ∷ cs) k
more c out_of_fuel = out_of_fuel

-- The body of the inner loop, given what `kbd_pop` returned and the rounds that follow.
pub store : (Keyboard → Drained) → Option ℕ × Keyboard → Drained
unfolding more
store rest (none, k) = stopped [] k
store rest (some c, k) = elim (c == newline) [ true ↦ line (c ∷ []) k | false ↦ more c (rest k) ]

-- The inner loop: `room` is `size - n`, and the result is what goes into the buffer.
pub drain : ℕ → ℕ → Keyboard → Drained
unfolding store
drain zero room k = out_of_fuel
drain (suc fuel) zero k = stopped [] k
drain (suc fuel) (suc room) k = store (drain fuel room) (pop k)

pub push_all : List ℕ → Keyboard → Keyboard
unfolding push
push_all [] k = k
push_all (c ∷ cs) k = push_all cs (push c k)

-- What a read returns: the bytes, the ring, and the batches that have not arrived yet.
pub data Reading : Type 0 where
  returned : List ℕ → Keyboard → List (List ℕ) → Reading
  -- the last batch has arrived and the reader waits again
  waiting : List ℕ → Keyboard → Reading
  no_fuel : Reading

-- A reading with `cs` read before it.
abbrev pub after : List ℕ → Reading → Reading
after cs (returned ds k rest) = returned (cs ++ ds) k rest
after cs (waiting ds k) = waiting (cs ++ ds) k
after cs no_fuel = no_fuel

-- The body of the outer loop behind its inner loop; `wait` is what follows the wait for input.
pub arrive : ℕ → List (List ℕ) → (ℕ → Keyboard → Reading) → Drained → Reading
arrive room batches wait (line cs k) = returned cs k batches
arrive room batches wait (stopped cs k) = elim (length cs == room) [
  | true ↦ returned cs k batches
  | false ↦ after cs (wait (room - length cs) k)
]
arrive room batches wait out_of_fuel = no_fuel

-- The outer loop of `keyboard_read` with `room` bytes to go. Each batch is what arrives during one
-- `scheduler_wait`. A ring has fewer than `buf_size` characters, which bounds the inner loop.
pub read : ℕ → Keyboard → List (List ℕ) → Reading
unfolding drain push_all arrive
read room k [] = arrive room [] (λ r k'. waiting [] k') (drain buf_size room k)
read room k (b ∷ bs) =
    arrive room (b ∷ bs) (λ r k'. read r (push_all b k') bs) (drain buf_size room k)

-- `keyboard_read`
pub keyboard_read : ℕ → Keyboard → List (List ℕ) → Reading
unfolding read
keyboard_read size k batches = if size == 0 then returned [] k batches else read size k batches
