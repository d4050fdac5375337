-- ===== src/Shell/Editor/Lines.antt =====
-- The inner loop of `shell_run` of shell.c as a whole.
use simple_kernel.Base.{
  ℕ, ◌≡◌, ◌⊎◌, refl, sym, ap, ◌∙◌, Bool, true, false, ◌||◌, Option, none, some, List, [], ◌∷◌, ◌==◌,
  if◌then◌else◌, Bool-cases, inl, inr,
}
use simple_kernel.Event.{EventType, Event, char, up, down, left, right}
use simple_kernel.Shell.Editor.{Editor, Step, key, on_event, read_line}
use simple_kernel.Shell.Editor.Bounds.{IsValid, OnStep, on_event-IsValid}

Step-cases :
    (s : Step) → ((e : Editor) × (s ≡ Step.reads_on e)) ⊎ ((e : Editor) × (s ≡ Step.complete e))
Step-cases (Step.reads_on e) = inl (e, refl)
Step-cases (Step.complete e) = inr (e, refl)

finishes : Step → Bool
finishes (Step.reads_on e) = false
finishes (Step.complete e) = true

-- The one event that ends a line.
unfoldable pub is_newline : EventType → ℕ → Bool
is_newline char ch = ch == 10
is_newline _ ch = false

-- What follows the first newline; `none`: there is none.
unfoldable pub behind_newline : List Event → Option (List Event)
behind_newline [] = none
behind_newline (event ∷ events) =
    let rest = behind_newline events in if is_newline event.type event.ch then some events else rest

key-finishes : (c : ℕ) (e : Editor) → finishes (key c e) ≡ (c == 10)
unfolding finishes key
key-finishes c e = elim (Bool-cases (c == 10)) [
  | inl newline ↦ rw newline refl
  | inr other ↦ rw other (elim (Bool-cases (c == 8 || c == 0x7F)) [
    | inl back ↦ rw back refl
    | inr letter ↦ rw letter refl
  ])
]

on_event-finishes :
    (t : EventType) (ch : ℕ) (e : Editor) → finishes (on_event t ch e) ≡ is_newline t ch
unfolding finishes on_event is_newline
on_event-finishes left ch e = refl
on_event-finishes right ch e = refl
on_event-finishes up ch e = refl
on_event-finishes down ch e = refl
on_event-finishes char ch e = key-finishes ch _

pub read_line-more :
    (event : Event) (events : List Event) (e next : Editor)
    → on_event event.type event.ch e ≡ Step.reads_on next
    → read_line (event ∷ events) e ≡ read_line events next
unfolding read_line
read_line-more event events e next more = rw (read_line, more) refl

pub read_line-complete :
    (event : Event) (events : List Event) (e done : Editor)
    → on_event event.type event.ch e ≡ Step.complete done
    → read_line (event ∷ events) e ≡ some (done, events)
unfolding read_line
read_line-complete event events e done end = rw (read_line, end) refl

-- From an editor whose buffers have their sizes, whose command buffer ends with a NUL, whose
-- positions are in range and whose history is valid, and with a newline among the events, the
-- editor completes a line at the first newline, whatever keys come before, leaves the events
-- behind it, and all of that still holds.
pub read_line-IsValid :
    (events : List Event) (e : Editor) (rest : List Event)
    → IsValid e
    → behind_newline events ≡ some rest
    → (d : Editor) × (read_line events e ≡ some (d, rest)) × IsValid d
unfolding behind_newline finishes OnStep
read_line-IsValid [] e rest v h = cc h
read_line-IsValid (event ∷ events) e rest v h =
    let step = on_event event.type event.ch e in
    let ends = on_event-finishes event.type event.ch e in
    let kept = on_event-IsValid event.type event.ch e v in
    elim (Step-cases step) [
      | inl (next, more) ↦
          let goes_on : is_newline event.type event.ch ≡ false = sym (rw more at ends) in
          rw (read_line-more event events e next more)
            (read_line-IsValid events next rest (rw more at kept) (rw goes_on at h))
      | inr (done, end) ↦
          let newline : is_newline event.type event.ch ≡ true = sym (rw end at ends) in
          let left : some events ≡ some rest = rw newline at h in
          (
            done,
            read_line-complete event events e done end ∙ ap (λ r. some (done, r)) (cc left),
            rw end at kept,
          )
    ]
