-- ===== src/Memory/Physical.antt =====
-- memory/paging_physical.c: which physical frames are in use, a bit for each, and their allocation.
-- A frame is cleared when it is given out; `cleared` lists the addresses and sizes, the latest
-- first.
pub mod Fill
pub mod Bitmap
pub mod Search
pub mod Allocate
pub mod Lost
pub mod Count
mod Tests
use Prim.Native.Nat.{bit_and, bit_or}
use helos.Prelude.{
  ℕ, zero, suc, ◌+◌, ◌-◌, ◌*◌, ◌/◌, ◌%◌, ◌^◌, refl, ap, inl, inr, Bool, true, false, not, ◌&&◌,
  Option, none, some, List, [], ◌∷◌, ◌++◌, map, ltb, ◌==◌, if◌then◌else◌, set, get_or, word,
  complement,
}

abbrev pub page_size : ℕ
page_size = 4096

abbrev pub page_2m_size : ℕ
page_2m_size = 2097152

abbrev pub bitmap_bits : ℕ
bitmap_bits = 64

abbrev pub all_ones : ℕ
all_ones = 2 ^ 64 - 1

pub fill_bits : ℕ → ℕ → ℕ
fill_bits begin last =
    if last == bitmap_bits - 1
    then complement 64 (2 ^ begin - 1)
    else if begin == 0
    then 2 ^ (last + 1) - 1
    else bit_and (complement 64 (2 ^ begin - 1)) (2 ^ (last + 1) - 1)

-- `for (int i = ...; ...; i++) paging_physical_Bitmap[i] = v`, with the number of rounds.
pub fill_words : ℕ → ℕ → ℕ → List ℕ → List ℕ
fill_words zero i v bits = bits
fill_words (suc n) i v bits = fill_words n (i + 1) v (set bits i v)

abbrev pub or_word : List ℕ → ℕ → ℕ → List ℕ
or_word bits i w = set bits i (bit_or (get_or bits i 0) w)

abbrev pub and_not_word : List ℕ → ℕ → ℕ → List ℕ
and_not_word bits i w = set bits i (bit_and (get_or bits i 0) (complement 64 w))

pub bitmap_write_one : ℕ → ℕ → List ℕ → List ℕ
bitmap_write_one begin end bits =
    let first = begin / bitmap_bits in
    let last = (end - 1) / bitmap_bits in
    if first == last
    then or_word bits first (fill_bits (begin % bitmap_bits) ((end - 1) % bitmap_bits))
    else fill_words (last - (first + 1)) (first + 1) all_ones (
        or_word (or_word bits first (fill_bits (begin % bitmap_bits) (bitmap_bits - 1))) last
          (fill_bits 0 ((end - 1) % bitmap_bits)))

pub bitmap_write_zero : ℕ → ℕ → List ℕ → List ℕ
bitmap_write_zero begin end bits =
    let first = begin / bitmap_bits in
    let last = (end - 1) / bitmap_bits in
    if first == last
    then and_not_word bits first (fill_bits (begin % bitmap_bits) ((end - 1) % bitmap_bits))
    else fill_words (last - (first + 1)) (first + 1) 0 (
        and_not_word (and_not_word bits first (fill_bits (begin % bitmap_bits) (bitmap_bits - 1)))
          last (fill_bits 0 ((end - 1) % bitmap_bits)))

-- The variables of the file and `paging_EndPhysicalPage`.
pub record Frames : Type 0 where
  pub bitmap : List ℕ
  pub phy_i : ℕ
  pub phy_i_2m : ℕ
  pub end_page : ℕ
  pub cleared : List (ℕ × ℕ)

-- The first of the `n` bits from `j` on that is clear.
pub first_clear : ℕ → ℕ → ℕ → Option ℕ
first_clear zero j w = none
first_clear (suc n) j w = if bit_and w (2 ^ j) == 0 then some j else first_clear n (j + 1) w

-- The tests within the loop over `phy_i`.
pub free_bit : ℕ → Option ℕ
free_bit w = if w == all_ones then none else first_clear bitmap_bits 0 w

pub give : ℕ → Frames → ℕ × Frames
give j s =
    let address = (s.phy_i * bitmap_bits + j) * page_size in
    (
      address,
      record s {
        bitmap = set s.bitmap s.phy_i (bit_or (get_or s.bitmap s.phy_i 0) (2 ^ j));
        cleared = (address, page_size) ∷ s.cleared;
      },
    )

-- The loop over `phy_i`, with a bound on its rounds.
pub search_frame : ℕ → Frames → Option ℕ × Frames
search_frame zero s = (none, s)
search_frame (suc n) s =
    if ltb s.phy_i (s.end_page / bitmap_bits)
    then elim (free_bit (get_or s.bitmap s.phy_i 0)) [
      | some j ↦ let (address, s') = give j s in (some address, s')
      | none ↦ search_frame n (record s { phy_i = s.phy_i + 1 })
    ]
    else (none, s)

-- The frames written to the array; the number returned is how many they are.
pub allocate_frames : ℕ → Frames → List ℕ × Frames
allocate_frames zero s = ([], s)
allocate_frames (suc n) s =
    let (found, s') = search_frame (s.end_page / bitmap_bits - s.phy_i) s in
    elim found [
      | none ↦ ([], s')
      | some address ↦ let (rest, s'') = allocate_frames n s' in (address ∷ rest, s'')
    ]

-- The array's entry is 0 where there is no frame.
pub allocate_one_frame : Frames → ℕ × Frames
allocate_one_frame s =
    let (frames, s') = allocate_frames 1 s in (elim frames [ [] ↦ 0 | a ∷ _ ↦ a ], s')

pub all_zero : ℕ → ℕ → List ℕ → Bool
all_zero zero i bits = true
all_zero (suc n) i bits = (get_or bits i 0 == 0) && all_zero n (i + 1) bits

-- The loop over `phy_i_2M`, with a bound on its rounds.
pub search_frame_2m : ℕ → Frames → Option ℕ × Frames
search_frame_2m zero s = (none, s)
search_frame_2m (suc n) s =
    if ltb s.phy_i_2m (s.end_page / bitmap_bits)
    then (if all_zero 8 s.phy_i_2m s.bitmap
        then (
          some (s.phy_i_2m * bitmap_bits * page_size),
          record s {
            bitmap = fill_words 8 s.phy_i_2m all_ones s.bitmap;
            cleared = (s.phy_i_2m * bitmap_bits * page_size, page_2m_size) ∷ s.cleared;
          },
        )
        else search_frame_2m n (record s { phy_i_2m = s.phy_i_2m + 8 }))
    else (none, s)

pub allocate_frames_2m : ℕ → Frames → List ℕ × Frames
allocate_frames_2m zero s = ([], s)
allocate_frames_2m (suc n) s =
    let (found, s') = search_frame_2m (s.end_page / bitmap_bits - s.phy_i_2m) s in
    elim found [
      | none ↦ ([], s')
      | some address ↦
          if address == 0
          then ([], s')
          else (let (rest, s'') = allocate_frames_2m n s' in (address ∷ rest, s''))
    ]

pub allocate_one_frame_2m : Frames → ℕ × Frames
allocate_one_frame_2m s =
    let (frames, s') = allocate_frames_2m 1 s in (elim frames [ [] ↦ 0 | a ∷ _ ↦ a ], s')

-- A frame that is not aligned is refused with a message.
pub free_frame : ℕ → ℕ → Frames → Frames
free_frame frame page_count s =
    if frame % page_size == 0
    then record s {
      bitmap = bitmap_write_zero (frame / page_size) (frame / page_size + page_count) s.bitmap;
    }
    else s
