-- ===== src/Graphics/Tests.antt =====
-- The theorems on graphics/internal_helpers.h at small images.
use helos.Prelude.{replicate, ◌+◌, ◌-◌, ◌*◌, ◌/◌, ◌≤◌, ◌≡◌, refl, ◌↔◌, arith, word}
use helos.Prelude.Int.{pos, negsuc, ◌+ℤ◌, ◌-ℤ◌, ◌≤ℤ◌}
use helos.Util.MinMax.{intmax3, intmin3}
use helos.Graphics.{Region, clip_begin, clip_end, copy_buffer32, Color, render_pixel}
use helos.Graphics.Laws.{clip-exact, render_pixel-exact, sizes, sizes-copy_buffer32}

clip-exact_example :
    ((clip_begin (pos 2) (negsuc 0) ≤ℤ pos 1)
      × (pos 1 +ℤ pos 1 ≤ℤ clip_end (pos 5) (pos 8) (pos 2) (pos 3) (negsuc 0)))
    ↔ ((pos 0 ≤ℤ pos 1)
        × (pos 1 +ℤ pos 1 ≤ℤ pos 5)
        × (pos 0 ≤ℤ pos 2 +ℤ pos 1)
        × (pos 2 +ℤ pos 1 +ℤ pos 1 ≤ℤ pos 8)
        × (pos 0 ≤ℤ negsuc 0 +ℤ pos 1)
        × (negsuc 0 +ℤ pos 1 +ℤ pos 1 ≤ℤ pos 3))
clip-exact_example = clip-exact (pos 5) (pos 8) (pos 2) (pos 3) (negsuc 0) (pos 1)

abbrev glass : Color
glass = record { b = 100; g = 0; r = 128; a = 128 }

abbrev wall : Color
wall = record { b = 255; g = 10; r = 0; a = 0 }

render_pixel-exact_example :
    let out = render_pixel glass wall in
    (out.b ≡ 100 + 255 * (255 - 128) / 255)
    × (out.g ≡ 0 + 10 * (255 - 128) / 255)
    × (out.r ≡ 128 + 0 * (255 - 128) / 255)
    × (out.b ≤ 255)
    × (out.g ≤ 255)
    × (out.r ≤ 255)
render_pixel-exact_example =
    render_pixel-exact glass wall (omega arith) (omega arith) (omega arith) (omega arith)
      (omega arith) (omega arith) (omega arith)

-- The region begins two columns behind the end of the source.
abbrev outside : Region
outside = record {
  from_offset_x = pos 10;
  from_offset_y = pos 0;
  from_size_x = pos 8;
  from_size_y = pos 8;
  to_offset_x = pos 0;
  to_offset_y = pos 0;
  to_size_x = pos 20;
  to_size_y = pos 20;
  count_x = pos 4;
  count_y = pos 1;
}

outside-clipped :
    clip_end (pos 4) (pos 8) (pos 10) (pos 20) (pos 0) +ℤ pos 2 ≡ clip_begin (pos 10) (pos 0)
unfolding clip_begin clip_end intmax3 intmin3 ◌+ℤ◌ ◌-ℤ◌
outside-clipped = refl

outside-rows :
    clip_begin (pos 0) (pos 0) +ℤ pos 1 ≡ clip_end (pos 1) (pos 8) (pos 0) (pos 20) (pos 0)
unfolding clip_begin clip_end intmax3 intmin3 ◌+ℤ◌ ◌-ℤ◌
outside-rows = refl

sizes-copy_buffer32_example : sizes (copy_buffer32 outside) ≡ replicate 1 (word - 4 * 2)
sizes-copy_buffer32_example =
    sizes-copy_buffer32 outside 1 2 (omega arith) (omega arith) outside-clipped outside-rows
