-- ===== src/Vga/Render.antt =====
-- `render_viewport` of vga.c: what the screen shows.
use simple_kernel.Base.{
  ℕ, zero, suc, ◌+◌, ◌-◌, ◌*◌, ◌/◌, ◌%◌, ◌<◌, ◌≤◌, ◌≡◌, refl, ◌∙◌, Bool, true, false, ◌&&◌, List,
  arith, ltb, leb, ◌==◌, if◌then◌else◌, Bool-cases, inl, inr, in_run, length, length-set, get_or,
  set, get_or-set,
}
use simple_kernel.Kstring.{kmemcpy_between}
use simple_kernel.Kstring.Memory.{kmemcpy_between-get, length-kmemcpy_between}
use simple_kernel.Vga.{
  Vga, width, height, content_width, content_height, blank_entry, fill_cells, blank_rows, copy_rows,
  render_viewport,
}

pub length-fill_cells : (r at cell : ℕ) (b : List ℕ) → length (fill_cells r at cell b) ≡ length b
unfolding fill_cells
length-fill_cells zero at cell b = refl
length-fill_cells (suc r) at cell b =
    length-fill_cells r (at + 1) cell (set b at cell) ∙ length-set b at cell

pub fill_cells-get :
    (r at cell : ℕ) (b : List ℕ) (j : ℕ)
    → at + r ≤ length b
    → get_or (fill_cells r at cell b) j 0 ≡ (if in_run at r j then cell else get_or b j 0)
unfolding fill_cells
fill_cells-get zero at cell b j h = ground arith
fill_cells-get (suc r) at cell b j h = ground (
  arith,
  fill_cells-get r (at + 1) cell (set b at cell) j,
  length-set b at cell,
  get_or-set b at j cell 0,
)

pub length-blank_rows : (r y cell : ℕ) (b : List ℕ) → length (blank_rows r y cell b) ≡ length b
unfolding blank_rows
length-blank_rows zero y cell b = refl
length-blank_rows (suc r) y cell b =
    length-blank_rows r (y + 1) cell (fill_cells width (y * width) cell b)
    ∙ length-fill_cells width (y * width) cell b

blank_rows-get :
    (r y cell : ℕ) (b : List ℕ) (j : ℕ)
    → (y + r) * width ≤ length b
    → get_or (blank_rows r y cell b) j 0
      ≡ (if in_run (y * width) (r * width) j then cell else get_or b j 0)
unfolding blank_rows
blank_rows-get zero y cell b j h = ground arith
blank_rows-get (suc r) y cell b j h = ground (
  arith,
  blank_rows-get r (y + 1) cell (fill_cells width (y * width) cell b) j,
  length-fill_cells width (y * width) cell b,
  fill_cells-get width (y * width) cell b j,
)

-- The cell `j` of the screen lies in content row `y`, which shows row `viewport + y`.
abbrev pub in_columns : ℕ → Bool
in_columns j = leb 1 (j % width) && leb (j % width) content_width

-- The cell of row `row` of the history that is shown at `j`.
abbrev pub shown : ℕ → ℕ → ℕ
shown row j = row * content_width + (j % width - 1)

module _ (viewport total : ℕ) (history : List ℕ) where
  abbrev row_step : ℕ → List ℕ → List ℕ
  row_step y b =
      if leb total (viewport + y)
      then b
      else kmemcpy_between ((y + 1) * width + 1) ((viewport + y) * content_width) content_width
          history b

  length-row_step : (y : ℕ) (b : List ℕ) → length (row_step y b) ≡ length b
  length-row_step y b = elim (Bool-cases (leb total (viewport + y))) [
    | inl past ↦ rw past
    | inr near ↦ rw near (
        length-kmemcpy_between ((y + 1) * width + 1) ((viewport + y) * content_width) content_width
          history b)
  ]

  run_columns :
      (y j : ℕ)
      → in_run ((y + 1) * width + 1) content_width j ≡ (j / width == y + 1 && in_columns j)
  run_columns y j = ground arith

  source :
      (y j : ℕ)
      → (j / width == y + 1 && in_columns j) ≡ true
      → j - ((y + 1) * width + 1) + (viewport + y) * content_width ≡ shown (viewport + y) j
  source y j h = ground arith

  row_step-get :
      (y : ℕ) (b : List ℕ) (j : ℕ)
      → (y + 2) * width ≤ length b
      → get_or (row_step y b) j 0 ≡ (
          if ltb (viewport + y) total && (j / width == y + 1 && in_columns j)
          then get_or history (shown (viewport + y) j) 0
          else get_or b j 0)
  row_step-get y b j h = elim (Bool-cases (leb total (viewport + y))) [
    | inl past ↦ let e : ltb (viewport + y) total ≡ false = ground arith in rw (past, e)
    | inr near ↦
        let e : ltb (viewport + y) total ≡ true = ground arith in
        rw
          (
            near,
            e,
            kmemcpy_between-get ((y + 1) * width + 1) ((viewport + y) * content_width) content_width
                history b j (omega arith),
            run_columns y j,
          )
          (elim (Bool-cases (j / width == y + 1 && in_columns j)) [
            | inl here ↦ rw (here, source y j here)
            | inr out ↦ rw out
          ])
  ]

  row_step-else :
      (y : ℕ) (b : List ℕ) (j : ℕ)
      → (y + 2) * width ≤ length b
      → (j / width == y + 1) ≡ false
      → get_or (row_step y b) j 0 ≡ get_or b j 0
  row_step-else y b j h other =
      rw (row_step-get y b j h, other)
        (elim (Bool-cases (ltb (viewport + y) total)) [ inl e ↦ rw e | inr e ↦ rw e ])

  -- One of the `r` content rows from `y` on shows a row of the history at `j`.
  abbrev pub lit : ℕ → ℕ → ℕ → Bool
  lit y r j =
      ltb (viewport + (j / width - 1)) total && (in_run (y + 1) r (j / width) && in_columns j)

  lit-here :
      (y r j : ℕ)
      → (j / width == y + 1) ≡ true
      → (lit (y + 1) r j ≡ false)
        × (lit y (suc r) j ≡ (ltb (viewport + y) total && (j / width == y + 1 && in_columns j)))
        × (j / width - 1 ≡ y)
  lit-here y r j e = ground arith

  lit-else : (y r j : ℕ) → (j / width == y + 1) ≡ false → lit (y + 1) r j ≡ lit y (suc r) j
  lit-else y r j e = ground arith

  copy_rows-get :
      (r y : ℕ) (b : List ℕ) (j : ℕ)
      → (y + r + 1) * width ≤ length b
      → get_or (copy_rows r y viewport total history b) j 0 ≡ (
          if lit y r j
          then get_or history (shown (viewport + (j / width - 1)) j) 0
          else get_or b j 0)
  unfolding copy_rows
  copy_rows-get zero y b j h = ground arith
  copy_rows-get (suc r) y b j h =
      let rest = copy_rows-get r (y + 1) (row_step y b) j (omega (arith, length-row_step y b)) in
      rest ∙ elim (Bool-cases (j / width == y + 1)) [
        | inl here ↦
            let l = lit-here y r j here in rw (l.0, l.1, l.2) (row_step-get y b j (omega arith))
        | inr other ↦ rw (lit-else y r j other, row_step-else y b j (omega arith) other)
      ]

-- What stands in the cell `j` of the screen: the border and the rows behind the last are blank.
unfoldable pub screen_cell : Vga → ℕ → ℕ
screen_cell v j =
    if lit v.viewport_row v.total_rows v.history_buffer 0 content_height j
    then get_or v.history_buffer (shown (v.viewport_row + (j / width - 1)) j) 0
    else blank_entry v

-- On a terminal buffer of the screen's size `render_viewport` shows, inside the border, the rows of
-- the history from the viewport on, and leaves everything else blank.
pub render_viewport-screen_cell :
    (v : Vga) (j : ℕ)
    → length v.terminal_buffer ≡ height * width
    → j < height * width
    → get_or (render_viewport v).terminal_buffer j 0 ≡ screen_cell v j
unfolding render_viewport screen_cell
render_viewport-screen_cell v j size h =
    let blank = blank_rows height 0 (blank_entry v) v.terminal_buffer in
    let all : in_run 0 (height * width) j ≡ true = ground arith in
    copy_rows-get v.viewport_row v.total_rows v.history_buffer content_height 0 blank j
      (omega (arith, length-blank_rows height 0 (blank_entry v) v.terminal_buffer))
    ∙ rw (blank_rows-get height 0 (blank_entry v) v.terminal_buffer j (omega arith), all)

length-copy_rows :
    (r y viewport total : ℕ) (history b : List ℕ)
    → length (copy_rows r y viewport total history b) ≡ length b
unfolding copy_rows
length-copy_rows zero y viewport total history b = refl
length-copy_rows (suc r) y viewport total history b =
    length-copy_rows r (y + 1) viewport total history (row_step viewport total history y b)
    ∙ length-row_step viewport total history y b

pub length-render_viewport :
    (v : Vga) → length (render_viewport v).terminal_buffer ≡ length v.terminal_buffer
unfolding render_viewport
length-render_viewport v =
    length-copy_rows content_height 0 v.viewport_row v.total_rows v.history_buffer
      (blank_rows height 0 (blank_entry v) v.terminal_buffer)
    ∙ length-blank_rows height 0 (blank_entry v) v.terminal_buffer
