-- ===== src/Keyboard/Tests.antt =====
-- The theorems on keyboard.c at concrete keyboards.
use simple_kernel.Base.{◌≡◌, true, false, List, [], ◌∷◌, arith, length-replicate, replicate}
use simple_kernel.Event.{event_char}
use simple_kernel.Keyboard.{Keyboard, buffer_size, process_scancode}
use simple_kernel.Keyboard.Decode.{Follows, decode, process_scancode-Follows}
use simple_kernel.Keyboard.Queue.{
  IsValid, Access, contents, run_ring, run_queue, run_ring-run_queue,
}

-- An empty ring about to go round.
abbrev at_the_end : Keyboard
at_the_end = record {
  shift_pressed = true;
  extended_prefix = false;
  input_queue = replicate buffer_size (event_char 0);
  head = 255;
  tail = 255;
}

at_the_end-IsValid : IsValid at_the_end
at_the_end-IsValid = record {
  storage = length-replicate buffer_size (event_char 0);
  head_in = omega arith;
  tail_in = omega arith;
}

abbrev two_keys : List Access
two_keys =
    Access.arrive (event_char b'a')
    ∷ Access.arrive (event_char b'b')
    ∷ Access.read
    ∷ Access.read
    ∷ Access.read
    ∷ []

run_ring-run_queue_example : run_ring at_the_end two_keys ≡ run_queue (contents at_the_end) two_keys
run_ring-run_queue_example = run_ring-run_queue two_keys at_the_end at_the_end-IsValid

-- The key `a` with shift.
process_scancode-Follows_example :
    Follows (decode true false 0x1E) at_the_end (process_scancode 0x1E at_the_end)
process_scancode-Follows_example =
    process_scancode-Follows 0x1E at_the_end at_the_end-IsValid (omega arith)
