-- ===== src/Memory/Physical/Bitmap.antt =====
-- The bitmap of memory/paging_physical.c, and what its writes of a range do to each frame.
use Prim.Native.Nat.{bit_and, bit_or}
use helos.Prelude.{
  ℕ, zero, suc, ◌+◌, ◌-◌, ◌*◌, ◌/◌, ◌%◌, ◌≤◌, ◌<◌, ◌≡◌, refl, ◌∙◌, inl, inr, Bool, not, ◌&&◌, ◌||◌,
  List, arith, ltb, leb, ◌==◌, if◌then◌else◌, Bool-cases, length, set, length-set, get_or,
  get_or-set_self, get_or-set_ne, nth_bit, nth_bit-zero, complement, nth_bit-ones,
}
use helos.Memory.Physical.{
  fill_bits, fill_words, all_ones, or_word, and_not_word, bitmap_write_one, bitmap_write_zero,
}
use helos.Memory.Physical.Fill.{or-fill, and_not-fill}

-- Whether the frame is in use.
abbrev pub used : List ℕ → ℕ → Bool
used bits page = nth_bit (get_or bits (page / 64) 0) (page % 64) == 1

get_or-fill_words :
    (n i v : ℕ) (bits : List ℕ) (k : ℕ)
    → i + n ≤ length bits
    → get_or (fill_words n i v bits) k 0 ≡ (if leb i k && ltb k (i + n) then v else get_or bits k 0)
unfolding fill_words
get_or-fill_words zero i v bits k h = ground arith
get_or-fill_words (suc n) i v bits k h = ground (
  arith,
  get_or-fill_words n (i + 1) v (set bits i v) k,
  length-set bits i v,
  get_or-set_self bits i v 0,
  get_or-set_ne bits i k v 0,
)

length-fill_words : (n i v : ℕ) (bits : List ℕ) → length (fill_words n i v bits) ≡ length bits
unfolding fill_words
length-fill_words zero i v bits = refl
length-fill_words (suc n) i v bits =
    ground (arith, length-fill_words n (i + 1) v (set bits i v), length-set bits i v)

-- A word after one was replaced.
pub get_or-set :
    (bits : List ℕ) (i k w : ℕ)
    → i < length bits
    → get_or (set bits i w) k 0 ≡ (if i == k then w else get_or bits k 0)
get_or-set bits i k w h = ground (arith, get_or-set_self bits i w 0, get_or-set_ne bits i k w 0)

used-or_word :
    (bits : List ℕ) (i b l p : ℕ)
    → i < length bits
    → b ≤ l
    → l < 64
    → used (or_word bits i (fill_bits b l)) p
      ≡ (((p / 64) == i) && (leb b (p % 64) && leb (p % 64) l) || used bits p)
used-or_word bits i b l p h k m = ground (
  arith,
  get_or-set bits i (p / 64) (bit_or (get_or bits i 0) (fill_bits b l)) h,
  or-fill (get_or bits i 0) b l (p % 64) k m (omega arith),
)

used-and_not_word :
    (bits : List ℕ) (i b l p : ℕ)
    → i < length bits
    → b ≤ l
    → l < 64
    → used (and_not_word bits i (fill_bits b l)) p
      ≡ (not (((p / 64) == i) && (leb b (p % 64) && leb (p % 64) l)) && used bits p)
used-and_not_word bits i b l p h k m = ground (
  arith,
  get_or-set bits i (p / 64) (bit_and (get_or bits i 0) (complement 64 (fill_bits b l))) h,
  and_not-fill (get_or bits i 0) b l (p % 64) k m (omega arith),
)

used-fill_words :
    (n i v p : ℕ) (bits : List ℕ)
    → i + n ≤ length bits
    → used (fill_words n i v bits) p
      ≡ (if leb i (p / 64) && ltb (p / 64) (i + n) then nth_bit v (p % 64) == 1 else used bits p)
used-fill_words n i v p bits h = ground (arith, get_or-fill_words n i v bits (p / 64) h)

-- `paging_physical_BitmapWriteOne(begin, end)` marks the frames from `begin` to `end - 1` as used
-- and no other, for a range that is not empty and within the bitmap.
pub used-bitmap_write_one :
    (begin end : ℕ) (bits : List ℕ) (page : ℕ)
    → begin < end
    → end ≤ 64 * length bits
    → used (bitmap_write_one begin end bits) page
      ≡ ((leb begin page && ltb page end) || used bits page)
unfolding bitmap_write_one
used-bitmap_write_one begin end bits page h k =
    let f = begin / 64 in
    let l = (end - 1) / 64 in
    let bits1 = or_word bits f (fill_bits (begin % 64) 63) in
    let bits2 = or_word bits1 l (fill_bits 0 ((end - 1) % 64)) in
    let length1 : length bits1 ≡ length bits = length-set bits f _ in
    let length2 : length bits2 ≡ length bits = length-set bits1 l _ ∙ length1 in
    let fits : (f ≤ l) × (l < length bits) = omega arith in
    elim (Bool-cases (f == l)) [
      | inl e ↦ rw e (
          used-or_word bits f (begin % 64) ((end - 1) % 64) page (omega arith) (ground arith)
            (omega arith)
          ∙ ground arith)
      | inr e ↦
          rw
            (
              e,
              used-fill_words (l - (f + 1)) (f + 1) all_ones page bits2 (ground arith),
              used-or_word bits1 l 0 ((end - 1) % 64) page (omega arith) (omega arith)
                  (omega arith),
              used-or_word bits f (begin % 64) 63 page (omega arith) (omega arith) (omega arith),
            )
            (ground (arith, nth_bit-ones 64 (page % 64)))
    ]

-- `paging_physical_BitmapWriteZero(begin, end)` marks the frames from `begin` to `end - 1` as free
-- and no other, for a range that is not empty and within the bitmap.
pub used-bitmap_write_zero :
    (begin end : ℕ) (bits : List ℕ) (page : ℕ)
    → begin < end
    → end ≤ 64 * length bits
    → used (bitmap_write_zero begin end bits) page
      ≡ (not (leb begin page && ltb page end) && used bits page)
unfolding bitmap_write_zero
used-bitmap_write_zero begin end bits page h k =
    let f = begin / 64 in
    let l = (end - 1) / 64 in
    let bits1 = and_not_word bits f (fill_bits (begin % 64) 63) in
    let bits2 = and_not_word bits1 l (fill_bits 0 ((end - 1) % 64)) in
    let length1 : length bits1 ≡ length bits = length-set bits f _ in
    let length2 : length bits2 ≡ length bits = length-set bits1 l _ ∙ length1 in
    let fits : (f ≤ l) × (l < length bits) = omega arith in
    elim (Bool-cases (f == l)) [
      | inl e ↦ rw e (
          used-and_not_word bits f (begin % 64) ((end - 1) % 64) page (omega arith) (ground arith)
            (omega arith)
          ∙ ground arith)
      | inr e ↦
          rw
            (
              e,
              used-fill_words (l - (f + 1)) (f + 1) 0 page bits2 (ground arith),
              used-and_not_word bits1 l 0 ((end - 1) % 64) page (omega arith) (omega arith)
                  (omega arith),
              used-and_not_word bits f (begin % 64) 63 page (omega arith) (omega arith)
                  (omega arith),
            )
            (ground (arith, nth_bit-zero (page % 64)))
    ]

pub length-bitmap_write_zero :
    (begin end : ℕ) (bits : List ℕ) → length (bitmap_write_zero begin end bits) ≡ length bits
unfolding bitmap_write_zero
length-bitmap_write_zero begin end bits =
    let f = begin / 64 in
    let l = (end - 1) / 64 in
    let w = fill_bits (begin % 64) 63 in
    let w' = fill_bits 0 ((end - 1) % 64) in
    let bits1 = and_not_word bits f w in
    elim (Bool-cases (f == l)) [
      | inl e ↦ rw e (length-set bits f _)
      | inr e ↦ rw e (
          length-fill_words (l - (f + 1)) (f + 1) 0 (and_not_word bits1 l w')
          ∙ length-set bits1 l _
          ∙ length-set bits f _)
    ]
