-- ===== src/Keyboard/Queue.antt =====
-- The ring of keyboard.c as a queue of events.
use simple_kernel.Base.{
  ℕ, zero, suc, ◌+◌, ◌-◌, ◌%◌, ◌<◌, ◌≡◌, ◌≢◌, refl, sym, ap, ap₂, ◌∙◌, true, false, Option, none,
  some, List, [], ◌∷◌, ◌++◌, arith, ◌==◌, if◌then◌else◌, Bool-cases, Option-cases, inl, inr, length,
  length-set, get_or, set, get_or-set_self, get_or-set_ne,
}
use simple_kernel.Event.{Event, event_char}
use simple_kernel.Keyboard.{Keyboard, buffer_size, queue_event, has_input, getevent}

-- The specification: a FIFO that drops what does not fit.
abbrev pub EventQueue : Type 0
EventQueue = List Event

abbrev pub capacity : ℕ
capacity = 255

unfoldable pub enqueue : Event → EventQueue → EventQueue
enqueue e q = if length q == capacity then q else q ++ (e ∷ [])

unfoldable pub dequeue : EventQueue → Option (Event × EventQueue)
dequeue [] = none
dequeue (e ∷ q) = some (e, q)

pub record IsValid (k : Keyboard) : Type 0 where
  pub storage : length k.input_queue ≡ buffer_size
  pub head_in : k.head < buffer_size
  pub tail_in : k.tail < buffer_size

-- The `n` events from index `t` on, going round.
unfoldable pub window : List Event → ℕ → ℕ → EventQueue
window q t zero = []
window q t (suc n) = get_or q t (event_char 0) ∷ window q ((t + 1) % buffer_size) n

abbrev pub count : Keyboard → ℕ
count k = (k.head + buffer_size - k.tail) % buffer_size

abbrev pub contents : Keyboard → EventQueue
contents k = window k.input_queue k.tail (count k)

length-window : (q : List Event) (t n : ℕ) → length (window q t n) ≡ n
unfolding window
length-window q t zero = refl
length-window q t (suc n) = ap suc (length-window q ((t + 1) % buffer_size) n)

window-set :
    (q : List Event) (e : Event) (n t i : ℕ)
    → length q ≡ buffer_size
    → t < buffer_size
    → n < capacity
    → i ≡ (t + n) % buffer_size
    → window (set q i e) t (suc n) ≡ window q t n ++ (e ∷ [])
unfolding window
window-set q e zero t i size ht hn at =
    let same : i ≡ t = omega arith in
    rw same (ap (λ (x : Event). x ∷ []) (get_or-set_self q t e _ (omega arith)))
window-set q e (suc n) t i size ht hn at =
    let ne : i ≢ t = omega arith in
    ap₂ ◌∷◌ (get_or-set_ne q i t e _ ne)
      (window-set q e n ((t + 1) % buffer_size) i size (omega arith) (omega arith) (omega arith))

window-pos :
    (q : List Event) (t n : ℕ)
    → 0 < n
    → window q t n ≡ get_or q t (event_char 0) ∷ window q ((t + 1) % buffer_size) (n - 1)
unfolding window
window-pos q t zero h = absurd (omega arith)
window-pos q t (suc n) h = ap (λ m. window q t (suc m)) (omega arith)

-- What a reader sees of `keyboard_getevent`.
abbrev pub view : Option (Event × Keyboard) → Option (Event × EventQueue)
view none = none
view (some (e, k)) = some (e, contents k)

module _ (k : Keyboard) (v : IsValid k) where
  pub queue_event-IsValid : (e : Event) → IsValid (queue_event e k)
  unfolding queue_event
  queue_event-IsValid e = ground (arith, length-set k.input_queue k.head e, v)

  -- `queue_event` puts the event behind the others, or drops it where the ring holds 255 already.
  pub queue_event-enqueue : (e : Event) → contents (queue_event e k) ≡ enqueue e (contents k)
  unfolding queue_event enqueue
  queue_event-enqueue e = elim (Bool-cases ((k.head + 1) % buffer_size == k.tail)) [
    | inl full ↦
        let n : (length (contents k) == capacity) ≡ true =
          ground (arith, length-window k.input_queue k.tail (count k), v) in
        rw (full, n)
    | inr room ↦
        let n : (length (contents k) == capacity) ≡ false =
          ground (arith, length-window k.input_queue k.tail (count k), v) in
        let more : ((k.head + 1) % buffer_size + buffer_size - k.tail) % buffer_size
            ≡ suc (count k) =
          ground (arith, v) in
        rw (room, n, more)
          (window-set k.input_queue e (count k) k.tail k.head v.storage v.tail_in
            (ground (arith, v)) (omega (arith, v.head_in, v.tail_in)))
  ]

  getevent-none : (k.head == k.tail) ≡ true → getevent k ≡ none
  unfolding getevent has_input
  getevent-none e = rw e

  getevent-some :
      (k.head == k.tail) ≡ false
      → getevent k
        ≡ some (
          get_or k.input_queue k.tail (event_char 0),
          record k { tail = (k.tail + 1) % buffer_size },
        )
  unfolding getevent has_input
  getevent-some e = rw e

  -- `keyboard_getevent` takes the oldest event, and waits exactly if there is none.
  pub getevent-dequeue : view (getevent k) ≡ dequeue (contents k)
  getevent-dequeue = elim (Bool-cases (k.head == k.tail)) [
    | inl none_left ↦
        let n : count k ≡ 0 = ground (arith, v) in
        rw (getevent-none none_left, n) (unfold dequeue window in refl)
    | inr some_left ↦
        let n : 0 < count k = ground (arith, v) in
        let less : (k.head + buffer_size - (k.tail + 1) % buffer_size) % buffer_size ≡ count k - 1 =
          ground (arith, v) in
        rw (getevent-some some_left, window-pos k.input_queue k.tail (count k) n, less)
          (unfold dequeue in refl)
  ]

  pub getevent-IsValid : (e : Event) (k' : Keyboard) → getevent k ≡ some (e, k') → IsValid k'
  unfolding getevent
  getevent-IsValid e k' got = ground (arith, v)

-- What an interrupt handler and a reader do to the ring, in the order in which they come.
pub data Access : Type 0 where
  arrive : Event → Access
  read : Access

unfoldable pub run_queue : EventQueue → List Access → List (Option Event)
run_queue q [] = []
run_queue q (arrive e ∷ accesses) = run_queue (enqueue e q) accesses
run_queue q (read ∷ accesses) = elim (dequeue q) [
  | none ↦ none ∷ run_queue q accesses
  | some (e, q') ↦ some e ∷ run_queue q' accesses
]

unfoldable pub run_ring : Keyboard → List Access → List (Option Event)
run_ring k [] = []
run_ring k (arrive e ∷ accesses) = run_ring (queue_event e k) accesses
run_ring k (read ∷ accesses) = elim (getevent k) [
  | none ↦ none ∷ run_ring k accesses
  | some (e, k') ↦ some e ∷ run_ring k' accesses
]

-- From a valid keyboard, in whatever order events arrive and are read, the readers get what a queue
-- of 255 events gives.
pub run_ring-run_queue :
    (accesses : List Access) (k : Keyboard)
    → IsValid k
    → run_ring k accesses ≡ run_queue (contents k) accesses
unfolding run_ring run_queue
run_ring-run_queue [] k v = refl
run_ring-run_queue (arrive e ∷ accesses) k v = rw (
  run_ring-run_queue accesses (queue_event e k) (queue_event-IsValid k v e),
  queue_event-enqueue k v e,
)
run_ring-run_queue (read ∷ accesses) k v = elim (Option-cases (getevent k)) [
  | inl waits ↦
      let same : dequeue (contents k) ≡ none = sym (getevent-dequeue k v) ∙ ap view waits in
      rw (waits, run_ring, same, run_queue) (ap (λ r. none ∷ r) (run_ring-run_queue accesses k v))
  | inr ((e, k'), got) ↦
      let same : dequeue (contents k) ≡ some (e, contents k') =
        sym (getevent-dequeue k v) ∙ ap view got in
      rw (got, run_ring, same, run_queue)
        (ap (λ r. some e ∷ r) (run_ring-run_queue accesses k' (getevent-IsValid k v e k' got)))
]
