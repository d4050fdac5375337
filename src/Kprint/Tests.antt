-- ===== src/Kprint/Tests.antt =====
-- The theorem on kprint.c at a concrete number.
use simple_kernel.Base.{
  ℕ, ◌*◌, ◌≡◌, refl, arith, true, some, List, [], ◌++◌, length-replicate, replicate,
}
use simple_kernel.Console.{Console}
use simple_kernel.Console.Output.{crlf, sent}
use simple_kernel.Kprint.{kprint_u64}
use simple_kernel.Kprint.Numbers.{kprint_u64-ku64_parse}
use simple_kernel.Kstring.{ku64_parse}
use simple_kernel.Vga.{width, height, content_width, scrollback_rows, bottom_viewport_row}
use simple_kernel.Vga.Valid.{IsValid}

abbrev console : Console
console = record {
  vga = record {
    terminal_row = 0;
    terminal_column = 0;
    viewport_row = 0;
    total_rows = 1;
    terminal_color = 7;
    terminal_buffer = replicate (height * width) 0;
    history_buffer = replicate (scrollback_rows * content_width) 0;
    outs = [];
  };
  serial = record { initialized = true; rx = []; outs = [] };
}

screen-IsValid : IsValid console.vga
screen-IsValid = record {
  filled = record {
    sized = record {
      history = length-replicate {A = ℕ} (scrollback_rows * content_width) 0;
      screen = length-replicate {A = ℕ} (height * width) 0;
    };
    row = omega arith;
    column = omega arith;
    rows = omega arith;
  };
  viewport = unfold bottom_viewport_row in omega arith;
}

kprint_u64-ku64_parse_example :
    (t : List ℕ) × ((kprint_u64 1048576 console).serial.outs ≡ [] ++ sent (crlf t))
    × (ku64_parse t ≡ some 1048576)
    × IsValid (kprint_u64 1048576 console).vga
kprint_u64-ku64_parse_example =
    kprint_u64-ku64_parse 1048576 console (omega arith) refl screen-IsValid
