-- ===== src/Vga/Put.antt =====
-- `vga_putchar` of vga.c and the writing of text.
use simple_kernel.Base.{
  ℕ, ◌+◌, ◌-◌, ◌*◌, ◌<◌, ◌≤◌, ◌≡◌, ◌≢◌, ◌∙◌, Bool, ◌||◌, List, [], ◌∷◌, arith, ltb, leb, ◌==◌,
  if◌then◌else◌, Bool-cases, inl, inr, length-set,
}
use simple_kernel.Kstring.{kmemmove}
use simple_kernel.Kstring.Memory.{length-kmemmove}
use simple_kernel.Vga.{
  Vga, content_width, scrollback_rows, bottom_viewport_row, blank_entry, entry, clear_history_row,
  shift_history_up, sync_viewport, cover_row, advance_line, putchar, put_cell, backspace,
  writestring,
}
use simple_kernel.Vga.Render.{length-fill_cells}
use simple_kernel.Vga.Valid.{
  IsSized, IsFilled, IsValid, IsRendered, clear_history_row-IsSized, sync_viewport-IsValid,
  sync_viewport-IsRendered,
}

shift_history_up-IsSized : {v : Vga} → IsSized v → IsSized (shift_history_up v)
unfolding shift_history_up clear_history_row blank_entry
shift_history_up-IsSized {v} s =
    let rows = (scrollback_rows - 1) * content_width in
    let moved = kmemmove 0 content_width rows v.history_buffer in
    record {
      history =
          length-fill_cells content_width ((scrollback_rows - 1) * content_width) (blank_entry v)
            moved
          ∙ length-kmemmove 0 content_width rows v.history_buffer
          ∙ s.history;
      screen = s.screen;
    }

-- The state of `advance_line` in front of its last call.
abbrev stepped : Vga → Vga
stepped v =
    let next = record v { terminal_column = 0; terminal_row = v.terminal_row + 1 } in
    if leb scrollback_rows next.terminal_row then shift_history_up next else next

stepped-IsSized : {v : Vga} → IsSized v → IsSized (stepped v)
stepped-IsSized {v} s =
    let next : Vga = record v { terminal_column = 0; terminal_row = v.terminal_row + 1 } in
    elim (Bool-cases (leb scrollback_rows next.terminal_row)) [
      | inl over ↦
          rw over (shift_history_up-IsSized (record { history = s.history; screen = s.screen }))
      | inr fits ↦ rw fits (record { history = s.history; screen = s.screen })
    ]

stepped-rows :
    (v : Vga)
    → v.terminal_row < scrollback_rows
    → v.total_rows ≤ scrollback_rows
    → ((stepped v).terminal_row < scrollback_rows)
      × ((stepped v).terminal_column ≡ 0)
      × ((stepped v).total_rows ≤ scrollback_rows)
unfolding shift_history_up clear_history_row
stepped-rows v r t = ground arith

cover_row-IsFilled :
    (v : Vga)
    → IsSized v
    → v.terminal_row < scrollback_rows
    → v.terminal_column < content_width
    → v.total_rows ≤ scrollback_rows
    → IsFilled (cover_row v)
cover_row-IsFilled v s r c t = record {
  sized = record { history = s.history; screen = s.screen };
  row = ground arith;
  column = c;
  rows = ground arith;
}

pub clear_history_row-IsFilled :
    (row : ℕ) {v : Vga} → IsFilled v → IsFilled (clear_history_row row v)
clear_history_row-IsFilled row {v} f = record {
  sized = clear_history_row-IsSized row f.sized;
  row = unfold clear_history_row in f.row;
  column = unfold clear_history_row in f.column;
  rows = unfold clear_history_row in f.rows;
}

next_line-IsFilled :
    (v : Vga)
    → IsSized v
    → v.terminal_row < scrollback_rows
    → v.total_rows ≤ scrollback_rows
    → IsFilled (clear_history_row (cover_row (stepped v)).terminal_row (cover_row (stepped v)))
next_line-IsFilled v s r t =
    let z = stepped-rows v r t in
    clear_history_row-IsFilled (stepped v).terminal_row
      (cover_row-IsFilled (stepped v) (stepped-IsSized s) z.0 (omega arith) z.2)

advance_line-IsValid :
    (follow : Bool) (v : Vga)
    → IsSized v
    → v.terminal_row < scrollback_rows
    → v.total_rows ≤ scrollback_rows
    → IsValid (advance_line follow v) × IsRendered (advance_line follow v)
unfolding advance_line
advance_line-IsValid follow v s r t =
    let f = next_line-IsFilled v s r t in
    (sync_viewport-IsValid follow f, sync_viewport-IsRendered follow _ f.sized)

put_cell-IsSized : (c : ℕ) {v : Vga} → IsSized v → IsSized (put_cell c v)
unfolding put_cell
put_cell-IsSized c {v} s = record {
  history =
      length-set v.history_buffer (v.terminal_row * content_width + v.terminal_column)
        (entry c v.terminal_color)
      ∙ s.history;
  screen = s.screen;
}

put_cell-IsFilled : (c : ℕ) (v : Vga) → IsFilled v → IsFilled (put_cell c v)
put_cell-IsFilled c v f = record {
  sized = put_cell-IsSized c f.sized;
  row = unfold put_cell in f.row;
  column = unfold put_cell in f.column;
  rows = unfold put_cell in f.rows;
}

backspace-IsFilled : (v : Vga) → IsFilled v → IsFilled (backspace v)
unfolding backspace
backspace-IsFilled v f = elim (Bool-cases (ltb 0 v.terminal_column || ltb 0 v.terminal_row)) [
  | inl moves ↦ elim (Bool-cases (v.terminal_column == 0)) [
    | inl up ↦
        rw (moves, up)
          (put_cell-IsFilled 32 _ (record {
            sized = record { history = f.sized.history; screen = f.sized.screen };
            row = omega (arith, f.row);
            column = omega arith;
            rows = f.rows;
          }))
    | inr left ↦
        rw (moves, left)
          (put_cell-IsFilled 32 _ (record {
            sized = record { history = f.sized.history; screen = f.sized.screen };
            row = f.row;
            column = omega (arith, f.column);
            rows = f.rows;
          }))
  ]
  | inr stays ↦ rw stays f
]

-- The state behind a written character.
abbrev typed : ℕ → Vga → Vga
typed c v = let put = put_cell c v in record put { terminal_column = put.terminal_column + 1 }

put-IsValid :
    (follow : Bool) (c : ℕ) (v : Vga)
    → IsFilled v
    → let next = typed c v in
      let out : Vga =
        if next.terminal_column == content_width
        then advance_line follow next
        else sync_viewport follow (cover_row next) in
      IsValid out × IsRendered out
put-IsValid follow c v f =
    let p = put_cell-IsFilled c v f in
    let sized : IsSized (typed c v) = record {
      history = p.sized.history;
      screen = p.sized.screen;
    } in
    elim (Bool-cases ((typed c v).terminal_column == content_width)) [
      | inl full ↦
          rw full
            (advance_line-IsValid follow (typed c v) sized (omega (arith, p.row, p.rows)) p.rows)
      | inr room ↦
          let g =
            cover_row-IsFilled (typed c v) sized (omega (arith, p.row, p.rows))
              (let ne : (put_cell c v).terminal_column + 1 ≢ content_width = ground arith in
                omega (arith, p.column))
              p.rows in
          rw room (sync_viewport-IsValid follow g, sync_viewport-IsRendered follow _ g.sized)
    ]

-- On a valid terminal `vga_putchar` keeps the cursor, the row count and the viewport in range,
-- whatever the character, and leaves a screen that shows the history.
pub putchar-IsValid :
    (c : ℕ) (v : Vga) → IsValid v → IsValid (putchar c v) × IsRendered (putchar c v)
unfolding putchar
putchar-IsValid c v i = elim (Bool-cases (c == 10)) [
  | inl newline ↦ rw newline (
      advance_line-IsValid follow v i.filled.sized (omega (arith, i.filled.row, i.filled.rows))
        i.filled.rows)
  | inr a ↦ elim (Bool-cases (c == 8)) [
    | inl back ↦
        let f = backspace-IsFilled v i.filled in
        rw (a, back) (sync_viewport-IsValid follow f, sync_viewport-IsRendered follow _ f.sized)
    | inr b ↦ rw (a, b) (put-IsValid follow c v i.filled)
  ]
]
  where
    follow : Bool
    follow = v.viewport_row == bottom_viewport_row v.total_rows

-- So does writing any text.
pub writestring-IsValid : (str : List ℕ) (v : Vga) → IsValid v → IsValid (writestring str v)
unfolding writestring
writestring-IsValid [] v i = i
writestring-IsValid (c ∷ str) v i = writestring-IsValid str (putchar c v) (putchar-IsValid c v i).0
