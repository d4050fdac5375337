-- ===== src/Machine/Sample.antt =====
-- The kernel as the loader leaves it, for the tests of the components: every static variable is zero
-- or has its initialiser.
use simple_kernel.Base.{◌*◌, ◌/◌, false, none, [], replicate}
use simple_kernel.Event.{event_char}
use simple_kernel.Gdt.{zero_segment, sizeof_tss}
use simple_kernel.Idt.{entries, empty_entry}
use simple_kernel.Keyboard.{buffer_size}
use simple_kernel.Machine.{Machine}
use simple_kernel.Pmm.{max_frames}
use simple_kernel.Vga.{width, height, content_width, scrollback_rows}

abbrev pub loaded : Machine
loaded = record {
  console = record {
    vga = record {
      terminal_row = 0;
      terminal_column = 0;
      viewport_row = 0;
      total_rows = 0;
      terminal_color = 0;
      terminal_buffer = replicate (height * width) 0;
      history_buffer = replicate (scrollback_rows * content_width) 0;
      outs = [];
    };
    serial = record { initialized = false; rx = []; outs = [] };
  };
  keyboard = record {
    shift_pressed = false;
    extended_prefix = false;
    input_queue = replicate buffer_size (event_char 0);
    head = 0;
    tail = 0;
  };
  heap = record {
    header = λ p. record { size = 0; next = 0; free = false };
    head = 0;
    total_bytes = 0;
    used_bytes = 0;
    frames = record {
      frame_bitmap = replicate (max_frames / 8) 0;
      frame_limit = max_frames;
      total_frames = 0;
      free_frames = 0;
    };
  };
  boot = none;
  idt = record { table = replicate entries empty_entry; limit = 0; base = 0 };
  gdt = record {
    null_seg = zero_segment;
    code_seg = zero_segment;
    data_seg = zero_segment;
    tss_seg = record { low = zero_segment; base_upper = 0; reserved = 0 };
    tss = replicate sizeof_tss 0;
    loaded_limit = 0;
    loaded_base = 0;
    task_selector = 0;
  };
  system = record { timer_ticks = 0; interrupts = false; outs = [] };
}
