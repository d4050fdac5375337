-- ===== src/Vga/Tests.antt =====
-- The theorems on vga.c at a concrete terminal.
use simple_kernel.Base.{ℕ, ◌*◌, ◌≡◌, min, arith, [], length-replicate, get_or, replicate}
use simple_kernel.Base.Int.{pos, negsuc, pos_part, ◌+ℤ◌}
use simple_kernel.Vga.{
  Vga, width, height, content_width, scrollback_rows, bottom_viewport_row, blank_entry, clear,
  putchar, scroll_view,
}
use simple_kernel.Vga.Put.{putchar-IsValid}
use simple_kernel.Vga.Scroll.{scroll_view-IsValid, clear-IsValid}
use simple_kernel.Vga.Valid.{IsValid, IsRendered}

-- A full history, and the cursor at the end of its last row.
abbrev full_history : Vga
full_history = record {
  terminal_row = 255;
  terminal_column = 77;
  viewport_row = 233;
  total_rows = 256;
  terminal_color = 7;
  terminal_buffer = replicate (height * width) 0;
  history_buffer = replicate (scrollback_rows * content_width) 1889;
  outs = [];
}

full_history-IsValid : IsValid full_history
full_history-IsValid = record {
  filled = record {
    sized = record {
      history = length-replicate {A = ℕ} (scrollback_rows * content_width) 1889;
      screen = length-replicate {A = ℕ} (height * width) 0;
    };
    row = omega arith;
    column = omega arith;
    rows = omega arith;
  };
  viewport = unfold bottom_viewport_row in omega arith;
}

putchar-IsValid_example :
    IsValid (putchar b'x' full_history) × IsRendered (putchar b'x' full_history)
putchar-IsValid_example = putchar-IsValid b'x' full_history full_history-IsValid

scroll_view-IsValid_example :
    IsValid (scroll_view (negsuc 2) full_history)
    × IsRendered (scroll_view (negsuc 2) full_history)
    × ((scroll_view (negsuc 2) full_history).viewport_row
        ≡ min (pos_part (pos 233 +ℤ negsuc 2)) (bottom_viewport_row 256))
scroll_view-IsValid_example =
    scroll_view-IsValid (negsuc 2) full_history full_history-IsValid (omega arith) (omega arith)

clear-IsValid_example :
    IsValid (clear full_history)
    × IsRendered (clear full_history)
    × (get_or (clear full_history).history_buffer 5 0 ≡ blank_entry full_history)
clear-IsValid_example = clear-IsValid full_history 5 full_history-IsValid.filled.sized (omega arith)
