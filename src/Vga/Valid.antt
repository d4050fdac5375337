-- ===== src/Vga/Valid.antt =====
-- The invariant of the terminal of vga.c, and the redraw that ends its operations.
use simple_kernel.Base.{
  ℕ, ◌*◌, ◌<◌, ◌≤◌, ◌≡◌, ◌∙◌, Bool, true, false, arith, ltb, if◌then◌else◌, length, get_or,
}
use simple_kernel.Vga.{
  Vga, width, height, content_width, scrollback_rows, bottom_viewport_row, blank_entry,
  clear_history_row, render_viewport, update_cursor, sync_viewport,
}
use simple_kernel.Vga.Render.{
  length-fill_cells, length-render_viewport, screen_cell, render_viewport-screen_cell,
}

-- The two buffers have their sizes.
pub record IsSized (v : Vga) : Type 0 where
  pub history : length v.history_buffer ≡ scrollback_rows * content_width
  pub screen : length v.terminal_buffer ≡ height * width

-- The cursor lies in a row that is in use, of which there are at most 256.
pub record IsFilled (v : Vga) : Type 0 where
  pub sized : IsSized v
  pub row : v.terminal_row < v.total_rows
  pub column : v.terminal_column < content_width
  pub rows : v.total_rows ≤ scrollback_rows

pub record IsValid (v : Vga) : Type 0 where
  pub filled : IsFilled v
  pub viewport : v.viewport_row ≤ bottom_viewport_row v.total_rows

-- Each cell of the screen is what the history and the viewport make of it.
abbrev pub IsRendered : Vga → Type 0
IsRendered v = (j : ℕ) → j < height * width → get_or v.terminal_buffer j 0 ≡ screen_cell v j

-- What ends every redraw.
abbrev pub redraw : Vga → Vga
redraw v = update_cursor (render_viewport v)

pub redraw-IsRendered : (v : Vga) → IsSized v → IsRendered (redraw v)
unfolding update_cursor screen_cell render_viewport blank_entry
redraw-IsRendered v s j h = render_viewport-screen_cell v j s.screen h

pub redraw-IsValid : {v : Vga} → IsValid v → IsValid (redraw v)
unfolding update_cursor render_viewport
redraw-IsValid {v} i = record {
  filled = record {
    sized = record {
      history = i.filled.sized.history;
      screen = (unfold render_viewport in length-render_viewport v) ∙ i.filled.sized.screen;
    };
    row = i.filled.row;
    column = i.filled.column;
    rows = i.filled.rows;
  };
  viewport = i.viewport;
}

pub clear_history_row-IsSized : {v : Vga} (row : ℕ) → IsSized v → IsSized (clear_history_row row v)
unfolding clear_history_row
clear_history_row-IsSized {v} row s = record {
  history =
      length-fill_cells content_width (row * content_width) (blank_entry v) v.history_buffer
      ∙ s.history;
  screen = s.screen;
}

-- The row that `sync_viewport` scrolls to.
abbrev next_viewport : Bool → Vga → ℕ
next_viewport follow v =
    if follow
    then bottom_viewport_row v.total_rows
    else if ltb (bottom_viewport_row v.total_rows) v.viewport_row
    then bottom_viewport_row v.total_rows
    else v.viewport_row

next_viewport-le :
    (follow : Bool) (v : Vga) → next_viewport follow v ≤ bottom_viewport_row v.total_rows
next_viewport-le true v = omega arith
next_viewport-le false v = ground arith

pub sync_viewport-IsValid :
    (follow : Bool) {v : Vga} → IsFilled v → IsValid (sync_viewport follow v)
unfolding sync_viewport
sync_viewport-IsValid follow {v} f = redraw-IsValid (record {
  filled = record {
    sized = record { history = f.sized.history; screen = f.sized.screen };
    row = f.row;
    column = f.column;
    rows = f.rows;
  };
  viewport = next_viewport-le follow v;
})

pub sync_viewport-IsRendered :
    (follow : Bool) (v : Vga) → IsSized v → IsRendered (sync_viewport follow v)
unfolding sync_viewport
sync_viewport-IsRendered follow v s =
    redraw-IsRendered (record v { viewport_row = next_viewport follow v })
      (record { history = s.history; screen = s.screen })
