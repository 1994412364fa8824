-- ===== src/Graphics/Laws.antt =====
-- What graphics/internal_helpers.h clips to, and that its blending does not wrap.
use native.Mathlib.Nat.{mul-le-mul_right}
use helos.Prelude.{
  zero, suc, ap₂, refl, List, [], ◌∷◌, replicate, ◌∙◌, word, ◌^◌, ◌<◌, ℕ, ◌+◌, ◌-◌, ◌*◌, ◌/◌, ◌≤◌,
  ◌≡◌, ap, ◌↔◌, arith,
}
use helos.Prelude.Int.{
  ℤ, pos, negsuc, pos_part, neg_part, eq_of_parts, ◌+ℤ◌, ◌-ℤ◌, ◌*ℤ◌, ◌≤ℤ◌, int_laws, -ℤ_parts,
  +ℤ_parts,
}
use helos.Util.MinMax.{intmax3, intmin3}
use helos.Graphics.{
  Region, RowCopy, copy_rows, copy_buffer32, clip_begin, clip_end, size_t, copy_row, Color,
  blend_channel, render_pixel,
}

intmax3-le :
    (x y z bound : ℤ) → (intmax3 x y z ≤ℤ bound) ↔ ((x ≤ℤ bound) × (y ≤ℤ bound) × (z ≤ℤ bound))
unfolding intmax3
intmax3-le x y z bound = (λ h. ground arith, λ h. ground arith)

le-intmin3 :
    (x y z bound : ℤ) → (bound ≤ℤ intmin3 x y z) ↔ ((bound ≤ℤ x) × (bound ≤ℤ y) × (bound ≤ℤ z))
unfolding intmin3
le-intmin3 x y z bound = (λ h. ground arith, λ h. ground arith)

-- Along each axis, the clipped range is exactly the columns, or rows, of the region that lie in
-- both images.
pub clip-exact :
    (count from_size from_offset to_size to_offset x : ℤ)
    → ((clip_begin from_offset to_offset ≤ℤ x)
        × (x +ℤ pos 1 ≤ℤ clip_end count from_size from_offset to_size to_offset))
      ↔ ((pos 0 ≤ℤ x)
          × (x +ℤ pos 1 ≤ℤ count)
          × (pos 0 ≤ℤ from_offset +ℤ x)
          × (from_offset +ℤ x +ℤ pos 1 ≤ℤ from_size)
          × (pos 0 ≤ℤ to_offset +ℤ x)
          × (to_offset +ℤ x +ℤ pos 1 ≤ℤ to_size))
unfolding clip_begin clip_end
clip-exact count from_size from_offset to_size to_offset x =
    let first = intmax3-le (pos 0) (pos 0 -ℤ from_offset) (pos 0 -ℤ to_offset) x in
    let last = le-intmin3 count (from_size -ℤ from_offset) (to_size -ℤ to_offset) (x +ℤ pos 1) in
    (
      λ h.
          let begin = first.0 h.0 in
          let end = last.0 h.1 in
          (
            omega int_laws,
            omega int_laws,
            omega int_laws,
            omega int_laws,
            omega int_laws,
            omega int_laws,
          ),
      λ h. (
        first.1 (omega int_laws, omega int_laws, omega int_laws),
        last.1 (omega int_laws, omega int_laws, omega int_laws),
      ),
    )

blend_channel-exact :
    (src dest alpha : ℕ)
    → src ≤ alpha
    → alpha ≤ 255
    → dest ≤ 255
    → (blend_channel src dest alpha ≡ src + dest * (255 - alpha) / 255)
      × (blend_channel src dest alpha ≤ 255)
unfolding blend_channel
blend_channel-exact src dest alpha h k l =
    let bound : dest * (255 - alpha) ≤ 255 * (255 - alpha) = mul-le-mul_right (255 - alpha) l in
    omega (arith, bound)

-- Blending a pixel whose colours are premultiplied, so at most its alpha, onto one of bytes, wraps
-- nowhere: each channel is the source's and the part of the destination's that the alpha lets
-- through, and is a byte.
pub render_pixel-exact :
    (src dest : Color)
    → src.b ≤ src.a
    → src.g ≤ src.a
    → src.r ≤ src.a
    → src.a ≤ 255
    → dest.b ≤ 255
    → dest.g ≤ 255
    → dest.r ≤ 255
    → let out = render_pixel src dest in
      (out.b ≡ src.b + dest.b * (255 - src.a) / 255)
      × (out.g ≡ src.g + dest.g * (255 - src.a) / 255)
      × (out.r ≡ src.r + dest.r * (255 - src.a) / 255)
      × (out.b ≤ 255)
      × (out.g ≤ 255)
      × (out.r ≤ 255)
unfolding render_pixel
render_pixel-exact src dest hb hg hr ha kb kg kr = ground (
  arith,
  blend_channel-exact src.b dest.b src.a hb ha kb,
  blend_channel-exact src.g dest.g src.a hg ha kg,
  blend_channel-exact src.r dest.r src.a hr ha kr,
)

minus_of_sum :
    (end begin : ℤ) (n : ℕ) → 1 ≤ n → end +ℤ pos n ≡ begin → end -ℤ begin ≡ negsuc (n - 1)
minus_of_sum end begin n h e =
    eq_of_parts (end -ℤ begin) (negsuc (n - 1))
      (omega (arith, -ℤ_parts end begin, +ℤ_parts end (pos n), ap pos_part e, ap neg_part e))

size_t-negsuc : (n : ℕ) → 1 ≤ n → n < 2 ^ 61 → size_t (negsuc (n - 1) *ℤ pos 4) ≡ word - 4 * n
unfolding ◌*ℤ◌
size_t-negsuc n h k = ground arith

size-copy_row :
    (r : Region) (i : ℤ) (n : ℕ)
    → 1 ≤ n
    → n < 2 ^ 61
    → clip_end r.count_x r.from_size_x r.from_offset_x r.to_size_x r.to_offset_x +ℤ pos n
      ≡ clip_begin r.from_offset_x r.to_offset_x
    → (copy_row r i).size ≡ word - 4 * n
unfolding copy_row
size-copy_row r i n h k e =
    ap (λ d. size_t (d *ℤ pos 4)) (minus_of_sum _ _ n h e) ∙ size_t-negsuc n h k

pub sizes : List RowCopy → List ℕ
sizes [] = []
sizes (c ∷ cs) = c.size ∷ sizes cs

sizes-copy_rows :
    (m : ℕ) (r : Region) (i : ℤ) (n : ℕ)
    → 1 ≤ n
    → n < 2 ^ 61
    → clip_end r.count_x r.from_size_x r.from_offset_x r.to_size_x r.to_offset_x +ℤ pos n
      ≡ clip_begin r.from_offset_x r.to_offset_x
    → sizes (copy_rows m r i) ≡ replicate m (word - 4 * n)
unfolding copy_rows sizes
sizes-copy_rows zero r i n h k e = refl
sizes-copy_rows (suc m) r i n h k e =
    ap₂ ◌∷◌ (size-copy_row r i n h k e) (sizes-copy_rows m r (i +ℤ pos 1) n h k e)

rows_of_sum : (begin end : ℤ) (m : ℕ) → begin +ℤ pos m ≡ end → pos_part (end -ℤ begin) ≡ m
rows_of_sum begin end m e = ap pos_part (
    eq_of_parts (end -ℤ begin) (pos m)
      (omega (arith, -ℤ_parts end begin, +ℤ_parts begin (pos m), ap pos_part e, ap neg_part e)))

-- `__graphics_CopyBuffer32` of a region of which `m` rows are left in height but nothing in width,
-- the clipped end lying `n` columns before the begin, for `n` up to 2 ^ 31: it does not skip these
-- rows, but calls `memcpy` once for each, with the size 2 ^ 64 - 4n.
pub sizes-copy_buffer32 :
    (r : Region) (m n : ℕ)
    → 1 ≤ n
    → n ≤ 2 ^ 31
    → clip_end r.count_x r.from_size_x r.from_offset_x r.to_size_x r.to_offset_x +ℤ pos n
      ≡ clip_begin r.from_offset_x r.to_offset_x
    → clip_begin r.from_offset_y r.to_offset_y +ℤ pos m
      ≡ clip_end r.count_y r.from_size_y r.from_offset_y r.to_size_y r.to_offset_y
    → sizes (copy_buffer32 r) ≡ replicate m (word - 4 * n)
unfolding copy_buffer32
sizes-copy_buffer32 r m n h k e rows =
    rw (rows_of_sum _ _ m rows)
      (sizes-copy_rows m r (clip_begin r.from_offset_y r.to_offset_y) n h (omega arith) e)
