-- ===== src/Vga/Scroll.antt =====
-- Scrolling and clearing the terminal of vga.c.
use simple_kernel.Base.{
  ℕ, zero, suc, ◌+◌, ◌*◌, ◌<◌, ◌≤◌, ◌≡◌, refl, ◌∙◌, true, min, arith, if◌then◌else◌, in_run, length,
  get_or,
}
use simple_kernel.Base.Int.{ℤ, pos, negsuc, pos_part, neg_part, ◌+ℤ◌, ltb_ℤ, i32-fits}
use simple_kernel.Vga.{
  Vga, scrollback_rows, content_width, blank_entry, clear, fill_cells, bottom_viewport_row,
  clear_history_row, render_viewport, update_cursor, clear_rows, scroll_view,
}
use simple_kernel.Vga.Render.{fill_cells-get, length-fill_cells}
use simple_kernel.Vga.Valid.{
  IsSized, IsValid, IsRendered, redraw-IsRendered, redraw-IsValid, clear_history_row-IsSized,
}

-- The row that `vga_scroll_view` scrolls to.
abbrev clamp : ℤ → ℕ → ℕ
clamp next bottom =
    let low = if ltb_ℤ next (pos 0) then pos 0 else next in
    pos_part (if ltb_ℤ (pos bottom) low then pos bottom else low)

clamped : (next : ℤ) (bottom : ℕ) → clamp next bottom ≡ min (pos_part next) bottom
clamped (pos n) bottom = ground arith
clamped (negsuc n) bottom = ground arith

bottom_viewport_row-small :
    (rows : ℕ) → rows ≤ scrollback_rows → bottom_viewport_row rows < 0x80000000
unfolding bottom_viewport_row
bottom_viewport_row-small rows h = ground arith

neg_part-sum :
    (n : ℕ) (delta : ℤ) → neg_part delta ≤ 0x80000000 → neg_part (pos n +ℤ delta) ≤ 0x80000000
neg_part-sum n (pos d) h = ground arith
neg_part-sum n (negsuc d) h = ground arith

-- On a valid terminal, when the sum of the viewport's row and `delta` fits into 32 bits,
-- `vga_scroll_view` moves the viewport by `delta` rows, but not above the first row nor below the
-- last screenful, keeps the terminal valid, and shows what is there.
pub scroll_view-IsValid :
    (delta : ℤ) (v : Vga)
    → IsValid v
    → neg_part delta ≤ 0x80000000
    → pos_part (pos v.viewport_row +ℤ delta) < 0x80000000
    → IsValid (scroll_view delta v)
      × IsRendered (scroll_view delta v)
      × ((scroll_view delta v).viewport_row
          ≡ min (pos_part (pos v.viewport_row +ℤ delta)) (bottom_viewport_row v.total_rows))
unfolding scroll_view
scroll_view-IsValid delta v i low high =
    let bottom = bottom_viewport_row v.total_rows in
    let small : bottom < 0x80000000 = bottom_viewport_row-small v.total_rows i.filled.rows in
    let at : Vga = record v { viewport_row = clamp (pos v.viewport_row +ℤ delta) bottom } in
    let row = clamped (pos v.viewport_row +ℤ delta) bottom in
    rw
      (
        i32-fits (pos v.viewport_row) (omega (arith, small, i.viewport)) (omega arith),
        i32-fits (pos bottom) small (omega arith),
        i32-fits (pos v.viewport_row +ℤ delta) high (neg_part-sum v.viewport_row delta low),
      )
      (
        redraw-IsValid {v = at} (record {
          filled = record {
            sized = record { history = i.filled.sized.history; screen = i.filled.sized.screen };
            row = i.filled.row;
            column = i.filled.column;
            rows = i.filled.rows;
          };
          viewport = omega (arith, row);
        }),
        redraw-IsRendered at
            (record { history = i.filled.sized.history; screen = i.filled.sized.screen }),
        unfold update_cursor render_viewport in row,
      )

clear_rows-IsSized : (n row : ℕ) (v : Vga) → IsSized v → IsSized (clear_rows n row v)
unfolding clear_rows
clear_rows-IsSized zero row v s = s
clear_rows-IsSized (suc n) row v s =
    clear_rows-IsSized n (row + 1) (clear_history_row row v) (clear_history_row-IsSized row s)

clear_history_row-blank :
    (row : ℕ) (v : Vga) → blank_entry (clear_history_row row v) ≡ blank_entry v
unfolding clear_history_row blank_entry
clear_history_row-blank row v = refl

clear_rows-get :
    (n row : ℕ) (v : Vga) (j : ℕ)
    → (row + n) * content_width ≤ length v.history_buffer
    → get_or (clear_rows n row v).history_buffer j 0 ≡ (
        if in_run (row * content_width) (n * content_width) j
        then blank_entry v
        else get_or v.history_buffer j 0)
unfolding clear_rows clear_history_row
clear_rows-get zero row v j h = ground arith
clear_rows-get (suc n) row v j h =
    let at = row * content_width in
    let filled = fill_cells content_width at (blank_entry v) v.history_buffer in
    let rest = clear_rows-get n (row + 1) (clear_history_row row v) j (
      unfold clear_history_row in
      omega (arith, length-fill_cells content_width at (blank_entry v) v.history_buffer)) in
    (unfold clear_history_row in rest)
    ∙ rw
        (
          clear_history_row-blank row v,
          fill_cells-get content_width at (blank_entry v) v.history_buffer j (omega arith),
        )
        (ground arith)

-- `vga_clear` gives a valid terminal from any that has its buffers, whose history is blank and whose
-- screen shows that.
pub clear-IsValid :
    (v : Vga) (j : ℕ)
    → IsSized v
    → j < scrollback_rows * content_width
    → IsValid (clear v)
      × IsRendered (clear v)
      × (get_or (clear v).history_buffer j 0 ≡ blank_entry v)
unfolding clear
clear-IsValid v j s h =
    let at : Vga = record (clear_rows scrollback_rows 0 v) {
      terminal_row = 0;
      terminal_column = 0;
      viewport_row = 0;
      total_rows = 1;
    } in
    let c = clear_rows-IsSized scrollback_rows 0 v s in
    let sized : IsSized at = record { history = c.history; screen = c.screen } in
    let all : in_run 0 (scrollback_rows * content_width) j ≡ true = ground arith in
    (
      redraw-IsValid {v = at} (record {
        filled = record {
          sized = sized;
          row = omega arith;
          column = omega arith;
          rows = omega arith;
        };
        viewport = omega arith;
      }),
      redraw-IsRendered at sized,
      unfold update_cursor render_viewport in
          (clear_rows-get scrollback_rows 0 v j (omega (arith, s.history)) ∙ rw all refl),
    )
