-- ===== src/Vga.antt =====
-- vga.h and vga.c: the text terminal with its scrollback. The two buffers are lists of cells;
-- `outs` is what goes to the ports of the cursor, oldest first.
mod Tests
pub mod Put
pub mod Render
pub mod Scroll
pub mod Valid
use simple_kernel.Base.{
  ℕ, zero, suc, ◌+◌, ◌-◌, ◌*◌, ◌/◌, ◌%◌, ◌^◌, Bool, true, false, ◌&&◌, ◌||◌, not, List, [], ◌∷◌,
  ◌++◌, bit_and, bit_or, ltb, leb, ◌==◌, if◌then◌else◌, u8, u16, get_or, set,
}
use simple_kernel.Base.Int.{ℤ, pos, pos_part, ◌+ℤ◌, ltb_ℤ, i32}
use simple_kernel.Kstring.{kmemmove, kmemcpy_between}

abbrev pub width : ℕ
width = 80

abbrev pub height : ℕ
height = 25

abbrev pub padding_x : ℕ
padding_x = 1

abbrev pub padding_y : ℕ
padding_y = 1

abbrev pub content_width : ℕ
content_width = width - padding_x * 2

abbrev pub content_height : ℕ
content_height = height - padding_y * 2

abbrev pub scrollback_rows : ℕ
scrollback_rows = 256

abbrev pub light_grey : ℕ
light_grey = 7

abbrev pub black : ℕ
black = 0

abbrev pub red : ℕ
red = 4

abbrev pub light_blue : ℕ
light_blue = 9

abbrev pub light_green : ℕ
light_green = 10

abbrev pub light_cyan : ℕ
light_cyan = 11

abbrev pub light_red : ℕ
light_red = 12

abbrev pub light_magenta : ℕ
light_magenta = 13

abbrev pub yellow : ℕ
yellow = 14

abbrev pub white : ℕ
white = 15

unfoldable pub entry_color : ℕ → ℕ → ℕ
entry_color fg bg = u8 (bit_or fg (bg * 2 ^ 4))

unfoldable pub entry : ℕ → ℕ → ℕ
entry uc color = u16 (bit_or uc (color * 2 ^ 8))

pub record Vga : Type 0 where
  pub terminal_row : ℕ
  pub terminal_column : ℕ
  pub viewport_row : ℕ
  pub total_rows : ℕ
  pub terminal_color : ℕ
  pub terminal_buffer : List ℕ
  pub history_buffer : List ℕ
  pub outs : List (ℕ × ℕ)

unfoldable pub bottom_viewport_row : ℕ → ℕ
bottom_viewport_row total_rows =
    if ltb content_height total_rows then total_rows - content_height else 0

pub blank_entry : Vga → ℕ
unfolding entry
blank_entry v = entry 32 v.terminal_color

-- `rounds` cells from `at` on.
pub fill_cells : ℕ → ℕ → ℕ → List ℕ → List ℕ
fill_cells zero at cell buffer = buffer
fill_cells (suc rounds) at cell buffer = fill_cells rounds (at + 1) cell (set buffer at cell)

pub clear_history_row : ℕ → Vga → Vga
clear_history_row row v = record v {
  history_buffer = fill_cells content_width (row * content_width) (blank_entry v) v.history_buffer;
}

-- `kmemmove` counts bytes; here it counts cells of two.
pub shift_history_up : Vga → Vga
shift_history_up v =
    let moved = record v {
      history_buffer =
          kmemmove 0 content_width ((scrollback_rows - 1) * content_width) v.history_buffer;
    } in
    let c = clear_history_row (scrollback_rows - 1) moved in
    record c {
      terminal_row = if ltb 0 c.terminal_row then c.terminal_row - 1 else c.terminal_row;
      viewport_row = if ltb 0 c.viewport_row then c.viewport_row - 1 else c.viewport_row;
      total_rows = if ltb 0 c.total_rows then c.total_rows - 1 else c.total_rows;
    }

-- The two loops of `render_viewport`, with `rounds` rows left.
pub blank_rows : ℕ → ℕ → ℕ → List ℕ → List ℕ
blank_rows zero y cell buffer = buffer
blank_rows (suc rounds) y cell buffer =
    blank_rows rounds (y + 1) cell (fill_cells width (y * width) cell buffer)

pub copy_rows : ℕ → ℕ → ℕ → ℕ → List ℕ → List ℕ → List ℕ
copy_rows zero y viewport total history buffer = buffer
copy_rows (suc rounds) y viewport total history buffer =
    copy_rows rounds (y + 1) viewport total history (
      if leb total (viewport + y)
      then buffer
      else kmemcpy_between ((y + padding_y) * width + padding_x) ((viewport + y) * content_width)
          content_width history buffer)

pub render_viewport : Vga → Vga
render_viewport v = record v {
  terminal_buffer =
      copy_rows content_height 0 v.viewport_row v.total_rows v.history_buffer
        (blank_rows height 0 (blank_entry v) v.terminal_buffer);
}

pub visible_row : Vga → ℕ
visible_row v =
    if leb v.viewport_row v.terminal_row && ltb v.terminal_row (v.viewport_row + content_height)
    then v.terminal_row - v.viewport_row
    else content_height - 1

pub cursor_pos : Vga → ℕ
cursor_pos v = u16 ((visible_row v + padding_y) * width + v.terminal_column + padding_x)

pub update_cursor : Vga → Vga
update_cursor v =
    let pos = cursor_pos v in
    record v {
      outs =
          v.outs
          ++ ((0x3D4, 0x0F)
              ∷ (0x3D5, u8 (bit_and pos 0xFF))
              ∷ (0x3D4, 0x0E)
              ∷ (0x3D5, u8 (bit_and (pos / 2 ^ 8) 0xFF))
              ∷ []);
    }

pub sync_viewport : Bool → Vga → Vga
sync_viewport follow_bottom v =
    let bottom = bottom_viewport_row v.total_rows in
    let row =
      if follow_bottom
      then bottom
      else if ltb bottom v.viewport_row
      then bottom
      else v.viewport_row in
    update_cursor (render_viewport (record v { viewport_row = row }))

abbrev pub cover_row : Vga → Vga
cover_row v = record v {
  total_rows = if ltb v.total_rows (v.terminal_row + 1) then v.terminal_row + 1 else v.total_rows;
}

pub advance_line : Bool → Vga → Vga
advance_line follow_bottom v =
    let next = record v { terminal_column = 0; terminal_row = v.terminal_row + 1 } in
    let shifted = if leb scrollback_rows next.terminal_row then shift_history_up next else next in
    let covered = cover_row shifted in
    sync_viewport follow_bottom (clear_history_row covered.terminal_row covered)

pub clear_rows : ℕ → ℕ → Vga → Vga
clear_rows zero row v = v
clear_rows (suc rounds) row v = clear_rows rounds (row + 1) (clear_history_row row v)

pub clear : Vga → Vga
clear v =
    let cleared = clear_rows scrollback_rows 0 v in
    update_cursor (
      render_viewport (record cleared {
        terminal_row = 0;
        terminal_column = 0;
        viewport_row = 0;
        total_rows = 1;
      }))

-- The buffer is bound already, or is bound to the memory of the adapter: either way it is the list.
pub initialize : Vga → Vga
initialize v = update_cursor (
    clear (record v {
      terminal_row = 0;
      terminal_column = 0;
      viewport_row = 0;
      total_rows = 1;
      terminal_color = entry_color light_grey black;
    }))

unfoldable pub setcolor : ℕ → Vga → Vga
setcolor color v = record v { terminal_color = color }

pub putentryat : ℕ → ℕ → ℕ → ℕ → Vga → Vga
putentryat c color x y v =
    if leb scrollback_rows (v.viewport_row + y) || (leb content_width x || leb content_height y)
    then v
    else render_viewport (record v {
      history_buffer =
          set v.history_buffer ((v.viewport_row + y) * content_width + x) (entry c color);
    })

-- A cell of the row and column of the cursor.
pub put_cell : ℕ → Vga → Vga
put_cell c v = record v {
  history_buffer =
      set v.history_buffer (v.terminal_row * content_width + v.terminal_column)
        (entry c v.terminal_color);
}

pub backspace : Vga → Vga
backspace v =
    if ltb 0 v.terminal_column || ltb 0 v.terminal_row
    then (let up =
          if v.terminal_column == 0
          then record v { terminal_row = v.terminal_row - 1; terminal_column = content_width }
          else v in
        put_cell 32 (record up { terminal_column = up.terminal_column - 1 }))
    else v

pub putchar : ℕ → Vga → Vga
putchar c v =
    let follow_bottom = v.viewport_row == bottom_viewport_row v.total_rows in
    if c == 10
    then advance_line follow_bottom v
    else if c == 8
    then sync_viewport follow_bottom (backspace v)
    else (let put = put_cell c v in
        let next = record put { terminal_column = put.terminal_column + 1 } in
        if next.terminal_column == content_width
        then advance_line follow_bottom next
        else sync_viewport follow_bottom (cover_row next))

-- `vga_write` of a text in front of its NUL, which is `vga_writestring`.
unfoldable pub writestring : List ℕ → Vga → Vga
writestring [] v = v
writestring (c ∷ str) v = writestring str (putchar c v)

pub scroll_view : ℤ → Vga → Vga
scroll_view delta v =
    let next = i32 (i32 (pos v.viewport_row) +ℤ delta) in
    let bottom = i32 (pos (bottom_viewport_row v.total_rows)) in
    let low = if ltb_ℤ next (pos 0) then pos 0 else next in
    let row = if ltb_ℤ bottom low then bottom else low in
    update_cursor (render_viewport (record v { viewport_row = pos_part row }))

pub scroll_to_bottom : Vga → Vga
scroll_to_bottom v =
    update_cursor (render_viewport (record v { viewport_row = bottom_viewport_row v.total_rows }))

-- `vga_get_row` is the row that the cursor is shown in; the other getters are fields.
pub get_row : Vga → ℕ
get_row v = visible_row v
