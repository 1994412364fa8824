-- ===== src/Driver/Input/Pressed.antt =====
-- `input_KeyPressed` of driver/input/input.c: which keys are held after calls that press and
-- release.
use Prim.Native.Nat.{bit_and, bit_or}
use native.Mathlib.Nat.{pow-le-pow_right}
use helos.Prelude.{
  test_bit, Bool-cases, ap, ap₂, ◌≢◌, ◌∙◌, Bool, get_or-set_ne, get_or-set_self, if◌then◌else◌,
  get_or, length, List, ◌%◌, ◌<◌, inl, inr, ◌≡◌, ℕ, ◌/◌, ◌^◌, not, ◌&&◌, ◌||◌, arith, ◌==◌, set,
  nth_bit, nth_bit-lt, nth_bit-bit_or, nth_bit-bit_and, nth_bit-pow, complement, nth_bit-complement,
}
use helos.Driver.Input.{Event, Input, post, notify, key_pressed_test, press_key, release_key}
use helos.Driver.Input.Keys.{key_count}

pow-lt : (k : ℕ) → k < 64 → 2 ^ k < 2 ^ 64
pow-lt k h = omega (arith, pow-le-pow_right {n = 2} (omega arith) {i = k} {j = 63} (omega arith))

-- Setting and clearing one bit of a 64-bit word.
set_bit : (m k j : ℕ) → (nth_bit (bit_or m (2 ^ k)) j == 1) ≡ ((k == j) || (nth_bit m j == 1))
set_bit m k j = ground (arith, nth_bit-bit_or j m (2 ^ k), nth_bit-pow k j, nth_bit-lt j m)

clear_bit :
    (m k j : ℕ)
    → k < 64
    → j < 64
    → (nth_bit (bit_and m (complement 64 (2 ^ k))) j == 1) ≡ (not (k == j) && (nth_bit m j == 1))
clear_bit m k j hk hj = ground (
  arith,
  nth_bit-bit_and j m (complement 64 (2 ^ k)),
  nth_bit-complement j 64 (2 ^ k) (pow-lt k hk) hj,
  nth_bit-pow k j,
  nth_bit-lt j m,
)

-- The words of the mask that `key` and `other` stand in, and their bits there.
same_key : (key other : ℕ) → key / 64 ≡ other / 64 → ((key % 64) == (other % 64)) ≡ (key == other)
same_key key other e = ground arith

mask-post :
    (bytes : Event → List ℕ) (e : Event) (s : Input)
    → (notify (post bytes e s)).key_mask ≡ s.key_mask
unfolding notify post
mask-post bytes e s = ground arith

-- One word of the mask is replaced.
replaced :
    (mask : List ℕ) (key other w : ℕ)
    → length mask ≡ 2
    → key < key_count
    → get_or (set mask (key / 64) w) (other / 64) 0
      ≡ (if key / 64 == other / 64 then w else get_or mask (other / 64) 0)
replaced mask key other w h k =
    ground
      (arith, get_or-set_self mask (key / 64) w 0, get_or-set_ne mask (key / 64) (other / 64) w 0)

-- The bit of `other` in a word that is replaced by `w` at `key`.
bit_replaced :
    (mask : List ℕ) (key other w : ℕ) (after : Bool)
    → length mask ≡ 2
    → key < key_count
    → (key / 64 ≡ other / 64 → (nth_bit w (other % 64) == 1) ≡ after)
    → (key / 64 ≢ other / 64 → (nth_bit (get_or mask (other / 64) 0) (other % 64) == 1) ≡ after)
    → (nth_bit (get_or (set mask (key / 64) w) (other / 64) 0) (other % 64) == 1) ≡ after
bit_replaced mask key other w after h k same apart = elim (Bool-cases (key / 64 == other / 64)) [
  | inl e ↦ rw (replaced mask key other w h k, e) (same (ground arith))
  | inr e ↦ rw (replaced mask key other w h k, e) (apart (ground arith))
]

-- After `input_source_PressKey(key)` the keys held are those held before and `key`; after
-- `input_source_ReleaseKey(key)` they are those held before except `key`.
pub key_pressed_test-press_key :
    (bytes : Event → List ℕ) (s : Input) (key other : ℕ)
    → length s.key_mask ≡ 2
    → key < key_count
    → other < key_count
    → (key_pressed_test (press_key bytes key s) other
        ≡ ((key == other) || key_pressed_test s other))
      × (key_pressed_test (release_key bytes key s) other
          ≡ (not (key == other) && key_pressed_test s other))
unfolding key_pressed_test press_key release_key
key_pressed_test-press_key bytes s key other h hk ho = (
  rw (mask-post, test_bit, test_bit (get_or s.key_mask (other / 64) 0) (other % 64))
      (bit_replaced s.key_mask key other _ _ h hk
        (λ e.
          set_bit (get_or s.key_mask (key / 64) 0) (key % 64) (other % 64)
          ∙ ap₂ ◌||◌ (same_key key other e)
              (ap (λ i. nth_bit (get_or s.key_mask i 0) (other % 64) == 1) e))
        (λ n. ground arith)),
  rw (mask-post, test_bit, test_bit (get_or s.key_mask (other / 64) 0) (other % 64))
      (bit_replaced s.key_mask key other _ _ h hk
        (λ e.
          clear_bit (get_or s.key_mask (key / 64) 0) (key % 64) (other % 64) (omega arith)
            (omega arith)
          ∙ ap₂ ◌&&◌ (ap not (same_key key other e))
              (ap (λ i. nth_bit (get_or s.key_mask i 0) (other % 64) == 1) e))
        (λ n. ground arith)),
)
