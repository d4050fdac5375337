-- ===== src/Shell/Recall.antt =====
-- The ring of history lines as a list of at most `history_size` lines, oldest first.
use simple_kernel.Base.{
  ℕ, ◌+◌, ◌-◌, ◌%◌, ◌≤◌, ◌<◌, ◌≡◌, ◌≢◌, refl, sym, ap, ◌∙◌, arith, inl, inr, true, false, ◌&&◌,
  List, [], ltb, ◌==◌, if◌then◌else◌, Bool-cases, both_true, length, length-set, get_or, get_or-set,
  get_or_ext, get_or-beyond, set, set-get_or, in_run,
}
use simple_kernel.Kstring.{kstrcmp, kmemcpy_between}
use simple_kernel.Kstring.Compare.{text, kstrcmp-zero_iff}
use simple_kernel.Kstring.Memory.{kmemcpy_between-get, length-kmemcpy_between}
use simple_kernel.Shell.Compare.{is_zero, is_zero_lem}
use simple_kernel.Shell.{
  History, cmd_buffer_size, history_size, oldest_index, history_get, stored, history_push,
  history_add,
}

pub record IsValid (h : History) : Type 0 where
  pub rows : length h.lines ≡ history_size
  pub head_lt : h.head < history_size
  pub count_le : h.count ≤ history_size
  pub row_sized : (i : ℕ) → i < history_size → length (get_or h.lines i []) ≡ cmd_buffer_size

-- A stored line is the line with its last byte cleared.
pub stored_lem :
    (line row : List ℕ)
    → length line ≡ cmd_buffer_size
    → length row ≡ cmd_buffer_size
    → stored line row ≡ set line (cmd_buffer_size - 1) 0
unfolding stored
stored_lem line row l r =
    let copied = kmemcpy_between 0 0 cmd_buffer_size line row in
    let size : length copied ≡ length line =
      omega (arith, length-kmemcpy_between 0 0 cmd_buffer_size line row) in
    let same : copied ≡ line = get_or_ext 0 copied line size (λ j.
      elim (Bool-cases (in_run 0 cmd_buffer_size j)) [
        | inl e ↦
            let there : j - 0 + 0 ≡ j = omega arith in
            kmemcpy_between-get 0 0 cmd_buffer_size line row j (omega arith) ∙ rw (e, there) refl
        | inr ne ↦
            let past : cmd_buffer_size ≤ j = ground arith in
            get_or-beyond copied j 0 (omega arith) ∙ sym (get_or-beyond line j 0 (omega arith))
      ]) in
    ap (λ t. set t (cmd_buffer_size - 1) 0) same

-- The row of a position.
abbrev row_of : ℕ → ℕ → ℕ → ℕ
row_of head count p = ((head + history_size - count) % history_size + p) % history_size

row_of-push :
    (head count p : ℕ)
    → head < history_size
    → count < history_size
    → p ≤ count
    → row_of ((head + 1) % history_size) (count + 1) p ≡ row_of head count p
row_of-push head count p hh hc hp = omega arith

row_of-full :
    (head p : ℕ)
    → head < history_size
    → p < history_size
    → row_of ((head + 1) % history_size) history_size p ≡ row_of head history_size (p + 1)
row_of-full head p hh hp = omega arith

row_of-head :
    (head count p : ℕ)
    → head < history_size
    → count ≤ history_size
    → p ≤ count
    → 1 ≤ p + history_size - count
    → (head == row_of head count p) ≡ (p == count)
row_of-head head count p hh hc hp h1 = ground arith

-- In a valid history, a line that is pushed is the newest afterwards, behind the ones that were
-- there; the oldest line of a full history is gone.
pub history_push-get :
    (line : List ℕ) (h : History) (p : ℕ)
    → IsValid h
    → p < (history_push line h).count
    → history_get p (history_push line h) ≡ (
        if p + 1 == (history_push line h).count
        then stored line (get_or h.lines h.head [])
        else history_get (if ltb h.count history_size then p else p + 1) h)
unfolding history_push history_get oldest_index
history_push-get line h p v lt = elim (Bool-cases (ltb h.count history_size)) [
  | inl room ↦
      let first : p ≤ h.count = ground arith in
      let row : row_of ((h.head + 1) % history_size) (h.count + 1) p ≡ row_of h.head h.count p =
        row_of-push h.head h.count p v.head_lt (ground arith) first in
      let here : (h.head == row_of h.head h.count p) ≡ (p == h.count) =
        row_of-head h.head h.count p v.head_lt v.count_le first (ground arith) in
      let last : (p + 1 == (h.count + 1)) ≡ (p == h.count) = ground arith in
      rw (room, row, written (row_of h.head h.count p), here, last) refl
  | inr full ↦
      let size : h.count ≡ history_size = ground arith in
      let first : p < history_size = ground arith in
      let row : row_of ((h.head + 1) % history_size) history_size p
          ≡ row_of h.head history_size (p + 1) =
        row_of-full h.head p v.head_lt first in
      let here : (h.head == row_of h.head history_size (p + 1)) ≡ (p + 1 == history_size) =
        row_of-head h.head history_size (p + 1) v.head_lt (omega arith) (omega arith)
          (omega arith) in
      rw (full, size, row, written (row_of h.head history_size (p + 1)), here) refl
]
  where
    line' : List ℕ
    line' = stored line (get_or h.lines h.head [])

    written :
        (i : ℕ)
        → get_or (set h.lines h.head line') i []
          ≡ (if h.head == i then line' else get_or h.lines i [])
    written i = get_or-set h.lines h.head i line' [] (omega (arith, v.rows, v.head_lt))

history_push-IsValid :
    (line : List ℕ) (h : History)
    → length line ≡ cmd_buffer_size
    → IsValid h
    → IsValid (history_push line h)
unfolding history_push
history_push-IsValid line h size v = record {
  rows = length-set h.lines h.head line' ∙ v.rows;
  head_lt = omega arith;
  count_le = ground (arith, v.count_le);
  row_sized = row_sized;
}
  where
    row : List ℕ
    row = get_or h.lines h.head []

    line' : List ℕ
    line' = stored line row

    line'_sized : length line' ≡ cmd_buffer_size
    line'_sized =
        rw (stored_lem line row size (v.row_sized h.head v.head_lt))
          (length-set line (cmd_buffer_size - 1) 0 ∙ size)

    row_sized :
        (i : ℕ)
        → i < history_size
        → length (get_or (set h.lines h.head line') i []) ≡ cmd_buffer_size
    row_sized i lt =
        rw (get_or-set h.lines h.head i line' [] (omega (arith, v.rows, v.head_lt)))
          (elim (Bool-cases (h.head == i)) [
            | inl e ↦ rw e line'_sized
            | inr ne ↦ rw ne (v.row_sized i lt)
          ])

pub history_add-IsValid :
    (line : List ℕ) (h : History)
    → length line ≡ cmd_buffer_size
    → IsValid h
    → IsValid (history_add line h)
unfolding history_add
history_add-IsValid line h size v = elim (Bool-cases (get_or line 0 0 == 0)) [
  | inl e ↦ rw e v
  | inr ne ↦
      rw ne
        (elim (Bool-cases (ltb 0 h.count && is_zero (kstrcmp (history_get (h.count - 1) h) line))) [
          | inl e ↦ rw e v
          | inr fresh ↦ rw fresh (history_push-IsValid line h size v)
        ])
]

history_push-count : (line : List ℕ) (h : History) → 0 < (history_push line h).count
unfolding history_push
history_push-count line h = ground arith

history_push-newest :
    (line : List ℕ) (h : History)
    → IsValid h
    → length line ≡ cmd_buffer_size
    → get_or line (cmd_buffer_size - 1) 0 ≡ 0
    → history_get ((history_push line h).count - 1) (history_push line h) ≡ line
history_push-newest line h v size ended =
    let n = (history_push line h).count in
    let some_line : 0 < n = history_push-count line h in
    let last : (n - 1 + 1 == n) ≡ true = ground arith in
    let row = get_or h.lines h.head [] in
    let kept : stored line row ≡ line =
      stored_lem line row size (v.row_sized h.head v.head_lt)
      ∙ (ap (λ c. set line (cmd_buffer_size - 1) c) (sym ended)
          ∙ set-get_or line (cmd_buffer_size - 1) 0) in
    history_push-get line h (n - 1) v (omega arith) ∙ rw (last, kept) refl

-- After a line of full size that is not empty and ends with a NUL is added to a valid history, the
-- history is not empty and its
-- newest line has that text, whether the line was pushed or was there already.
pub history_add-newest :
    (line : List ℕ) (h : History)
    → IsValid h
    → length line ≡ cmd_buffer_size
    → get_or line (cmd_buffer_size - 1) 0 ≡ 0
    → get_or line 0 0 ≢ 0
    → let h' = history_add line h in
      (0 < h'.count) × (text (history_get (h'.count - 1) h') ≡ text line)
unfolding history_add
history_add-newest line h v size ended some_text =
    let full : (get_or line 0 0 == 0) ≡ false = ground arith in
    rw full
      (elim (Bool-cases (ltb 0 h.count && is_zero (kstrcmp (history_get (h.count - 1) h) line))) [
        | inl again ↦
            let last = history_get (h.count - 1) h in
            let both = both_true (ltb 0 h.count) (is_zero (kstrcmp last line)) again in
            rw again (
              (
                ground (arith, both.0),
                (kstrcmp-zero_iff last line).0 (is_zero_lem (kstrcmp last line) both.1),
              ))
        | inr fresh ↦
            rw fresh (history_push-count line h, ap text (history_push-newest line h v size ended))
      ])
