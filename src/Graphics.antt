-- ===== src/Graphics.antt =====
-- graphics/internal_helpers.h: copying and blending a rectangle of one image onto another, both of
-- 32-bit pixels. An `int` is read as an integer: sizes and offsets are those of screens and windows.
pub mod Laws
mod Tests
use helos.Prelude.{
  set, get_or, ℕ, zero, suc, ◌+◌, ◌-◌, ◌*◌, ◌/◌, ◌%◌, ◌^◌, min, max, refl, ap, inl, inr, true,
  false, not, none, some, List, [], ◌∷◌, ◌==◌, if◌then◌else◌, set, word,
}
use helos.Prelude.Int.{ℤ, pos, negsuc, pos_part, neg_part, ◌+ℤ◌, ◌-ℤ◌, ◌*ℤ◌, ltb_ℤ}
use helos.Util.MinMax.{intmax3, intmin3}

-- The two images' sizes, the offsets into them and the size of the region.
pub record Region : Type 0 where
  pub from_offset_x : ℤ
  pub from_offset_y : ℤ
  pub from_size_x : ℤ
  pub from_size_y : ℤ
  pub to_offset_x : ℤ
  pub to_offset_y : ℤ
  pub to_size_x : ℤ
  pub to_size_y : ℤ
  pub count_x : ℤ
  pub count_y : ℤ

-- `beginX` or `beginY`, and `endX` or `endY`.
unfoldable pub clip_begin : ℤ → ℤ → ℤ
clip_begin from_offset to_offset = intmax3 (pos 0) (pos 0 -ℤ from_offset) (pos 0 -ℤ to_offset)

unfoldable pub clip_end : ℤ → ℤ → ℤ → ℤ → ℤ → ℤ
clip_end count from_size from_offset to_size to_offset =
    intmin3 count (from_size -ℤ from_offset) (to_size -ℤ to_offset)

-- One call of `memcpy`: the offsets into the images, and the size as a `size_t`.
pub record RowCopy : Type 0 where
  pub to_bytes : ℤ
  pub from_bytes : ℤ
  pub size : ℕ

-- An integer as a `size_t`.
abbrev pub size_t : ℤ → ℕ
size_t (pos n) = n % word
size_t (negsuc n) = word - 1 - n % word

-- A round of the loop over the rows. `endX - beginX` is an `int`, and is read where it fits one.
pub copy_row : Region → ℤ → RowCopy
copy_row r i =
    let begin_x = clip_begin r.from_offset_x r.to_offset_x in
    let end_x = clip_end r.count_x r.from_size_x r.from_offset_x r.to_size_x r.to_offset_x in
    record {
      to_bytes = (r.to_offset_x +ℤ begin_x +ℤ r.to_size_x *ℤ (r.to_offset_y +ℤ i)) *ℤ pos 4;
      from_bytes = (r.from_offset_x +ℤ begin_x +ℤ r.from_size_x *ℤ (r.from_offset_y +ℤ i)) *ℤ pos 4;
      size = size_t ((end_x -ℤ begin_x) *ℤ pos 4);
    }

-- The loop over the rows, `n` of them from `i` on.
pub copy_rows : ℕ → Region → ℤ → List RowCopy
copy_rows zero r i = []
copy_rows (suc n) r i = copy_row r i ∷ copy_rows n r (i +ℤ pos 1)

-- The calls of `memcpy` that `__graphics_CopyBuffer32` makes.
pub copy_buffer32 : Region → List RowCopy
copy_buffer32 r =
    let begin_y = clip_begin r.from_offset_y r.to_offset_y in
    let end_y = clip_end r.count_y r.from_size_y r.from_offset_y r.to_size_y r.to_offset_y in
    copy_rows (pos_part (end_y -ℤ begin_y)) r begin_y

-- `HelosGraphics_Color`
pub record Color : Type 0 where
  pub b : ℕ
  pub g : ℕ
  pub r : ℕ
  pub a : ℕ

-- `(uint8_t)(src->B + ((int)dest->B) * (0xff - src->A) / 0xff)`
pub blend_channel : ℕ → ℕ → ℕ → ℕ
blend_channel src dest alpha = (src + dest * (255 - alpha) / 255) % 2 ^ 8

-- What `__graphics_RenderBuffer32` leaves in a pixel.
pub render_pixel : Color → Color → Color
render_pixel src dest =
    if src.a == 0
    then dest
    else if src.a == 255
    then record { b = src.b; g = src.g; r = src.r; a = 0 }
    else record {
      b = blend_channel src.b dest.b src.a;
      g = blend_channel src.g dest.g src.a;
      r = blend_channel src.r dest.r src.a;
      a = 0;
    }

abbrev black : Color
black = record { b = 0; g = 0; r = 0; a = 0 }

-- The place of a pixel of an image in its list of pixels.
abbrev pixel_index : ℤ → ℤ → ℤ → ℤ → ℤ → ℕ
pixel_index offset_x x size_x offset_y y = pos_part (offset_x +ℤ x +ℤ size_x *ℤ (offset_y +ℤ y))

-- The body of the loops over `x` and `y`: what is read outside an image is black here, and what is
-- written outside it is lost.
pub render_at : Region → List Color → ℤ → ℤ → List Color → List Color
render_at r from x y to =
    let src = get_or from (pixel_index r.from_offset_x x r.from_size_x r.from_offset_y y) black in
    let at = pixel_index r.to_offset_x x r.to_size_x r.to_offset_y y in
    set to at (render_pixel src (get_or to at black))

-- The inner loop, `n` rows from `y` on.
pub render_column : ℕ → Region → List Color → ℤ → ℤ → List Color → List Color
render_column zero r from x y to = to
render_column (suc n) r from x y to =
    render_column n r from x (y +ℤ pos 1) (render_at r from x y to)

-- The outer loop, `n` columns of `rows` rows from `x` on.
pub render_columns : ℕ → ℕ → Region → List Color → ℤ → ℤ → List Color → List Color
render_columns zero rows r from x y to = to
render_columns (suc n) rows r from x y to =
    render_columns n rows r from (x +ℤ pos 1) y (render_column rows r from x y to)

-- `__graphics_RenderBuffer32`, from the pixels of the images.
pub render_buffer32 : Region → List Color → List Color → List Color
render_buffer32 r from to =
    let begin_x = clip_begin r.from_offset_x r.to_offset_x in
    let begin_y = clip_begin r.from_offset_y r.to_offset_y in
    let end_x = clip_end r.count_x r.from_size_x r.from_offset_x r.to_size_x r.to_offset_x in
    let end_y = clip_end r.count_y r.from_size_y r.from_offset_y r.to_size_y r.to_offset_y in
    render_columns (pos_part (end_x -ℤ begin_x)) (pos_part (end_y -ℤ begin_y)) r from begin_x
      begin_y to
