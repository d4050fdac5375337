-- ===== src/Pmm/Valid.antt =====
-- The invariant of the frame allocator of pmm.c, and what one flipped bit does to it.
use simple_kernel.Base.{ℕ, ◌*◌, ◌/◌, ◌<◌, ◌≤◌, ◌≡◌, true, false, arith, add64, sub64, length}
use simple_kernel.Pmm.{Pmm, max_frames, bit_set, bit_clear, bit_test}
use simple_kernel.Pmm.Bitmap.{
  count_free, count_free-le, count_free-bit_set, count_free-bit_clear, length-bit_set,
  length-bit_clear,
}

-- The bitmap has a bit for every frame, and `free_frames` is the number of frames whose bit is
-- clear.
pub record IsValid (s : Pmm) : Type 0 where
  pub covers : s.frame_limit ≤ 8 * length s.frame_bitmap
  pub small : s.frame_limit ≤ max_frames
  pub total : s.total_frames ≡ s.frame_limit
  pub counted : s.free_frames ≡ count_free s.frame_bitmap s.frame_limit

-- The two steps of which every operation is made.
abbrev pub take_frame : ℕ → Pmm → Pmm
take_frame f s = record s {
  frame_bitmap = bit_set s.frame_bitmap f;
  free_frames = sub64 s.free_frames 1;
}

abbrev pub give_frame : ℕ → Pmm → Pmm
give_frame f s = record s {
  frame_bitmap = bit_clear s.frame_bitmap f;
  free_frames = add64 s.free_frames 1;
}

module _ {s : Pmm} (f : ℕ) (v : IsValid s) (h : f < s.frame_limit) where
  pub in_bitmap : f / 8 < length s.frame_bitmap
  in_bitmap = omega (arith, v.covers)

  pub take_frame-IsValid : bit_test s.frame_bitmap f ≡ false → IsValid (take_frame f s)
  take_frame-IsValid free = record {
    covers = omega (arith, v.covers, length-bit_set s.frame_bitmap f);
    small = v.small;
    total = v.total;
    counted = omega (
      arith,
      v.counted,
      v.small,
      count_free-le s.frame_bitmap s.frame_limit,
      count_free-bit_set s.frame_bitmap f s.frame_limit in_bitmap h free,
    );
  }

  pub give_frame-IsValid : bit_test s.frame_bitmap f ≡ true → IsValid (give_frame f s)
  give_frame-IsValid used = record {
    covers = omega (arith, v.covers, length-bit_clear s.frame_bitmap f);
    small = v.small;
    total = v.total;
    counted = omega (
      arith,
      v.counted,
      v.small,
      count_free-le s.frame_bitmap s.frame_limit,
      count_free-bit_clear s.frame_bitmap f s.frame_limit in_bitmap h used,
    );
  }
