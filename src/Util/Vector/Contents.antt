-- ===== src/Util/Vector/Contents.antt =====
-- The bytes that a vector of util/vector.c holds, and what its operations do to them.
use native.Mathlib.Nat.{mul-div_cancel, add-mul, le-mul_of_pos_right, mul_comm}
use helos.Prelude.{
  ap₂, ◌%◌, sub64, add64, Option, length-blit, sym, ltb, word, ◌∙◌, Bool-cases, length-take, ◌<◌,
  mul64, ℕ, zero, suc, ◌+◌, ◌*◌, ◌/◌, ◌^◌, ◌≤◌, ◌≡◌, refl, ap, inl, inr, none, some, List, [], ◌∷◌,
  ◌++◌, arith, length, take, blit,
}
use helos.Util.Vector.{
  resize_within, push, Vector, vector_size, rebuffer, resize, source, append, shrink_buffer,
  reserve, clear,
}
use helos.Util.Vector.Growth.{grow-enough, grow-forever}

abbrev pub contents : Vector → List ℕ
contents v = take v.size v.buf

-- `count` objects are held, in a buffer as long as the capacity says, which is not 0.
pub record IsValid (v : Vector) (count : ℕ) : Type 0 where
  pub storage : length v.buf ≡ v.cap
  pub size_in : v.size ≤ v.cap
  pub cap_small : v.cap < word
  pub cap_some : 1 ≤ v.cap
  pub object_some : 1 ≤ v.object_size
  pub whole : v.size ≡ count * v.object_size

-- The written bytes follow those before them.
take-blit_end :
    (xs : List ℕ) (i : ℕ) (vs : List ℕ)
    → i + length vs ≤ length xs
    → take (i + length vs) (blit xs i vs) ≡ take i xs ++ vs
take-blit_end xs zero [] h = refl
take-blit_end [] zero (v ∷ vs) h = absurd (omega arith)
take-blit_end (x ∷ xs) zero (v ∷ vs) h = ground (arith, take-blit_end xs zero vs (omega arith))
take-blit_end [] (suc i) vs h = absurd (omega arith)
take-blit_end (x ∷ xs) (suc i) vs h =
    let sum : suc i + length vs ≡ suc (i + length vs) = omega arith in
    rw sum (ap (λ l. x ∷ l) (take-blit_end xs i vs (omega arith)))

take-take : (n m : ℕ) (xs : List ℕ) → n ≤ m → take n (take m xs) ≡ take n xs
take-take zero m xs h = refl
take-take (suc n) zero xs h = absurd (omega arith)
take-take (suc n) (suc m) [] h = refl
take-take (suc n) (suc m) (x ∷ xs) h = ap (λ l. x ∷ l) (take-take n m xs (omega arith))

module _ (malloc : ℕ → ℕ → List ℕ) where
  -- A vector resized to `n` objects keeps the bytes that it had, as far as both sizes reach.
  record Resized (v v' : Vector) (n : ℕ) : Type 0 where
    valid : IsValid v' n
    same_object : v'.object_size ≡ v.object_size
    kept : (k : ℕ) → k ≤ v.size → take k v'.buf ≡ take k v.buf

  rebuffer-kept :
      (v : Vector) (newcap k : ℕ)
      → length (malloc v.buffers newcap) ≡ newcap
      → v.size ≤ newcap
      → v.size ≤ length v.buf
      → k ≤ v.size
      → take k (rebuffer malloc v newcap).buf ≡ take k v.buf
  unfolding rebuffer
  rebuffer-kept v newcap k h i j l =
      let old = take v.size v.buf in
      let new = blit (malloc v.buffers newcap) 0 old in
      let long : length old ≡ v.size = omega (arith, length-take v.size v.buf) in
      let whole : take v.size new ≡ old =
        ap (λ m. take m new) (omega (arith, long))
        ∙ take-blit_end (malloc v.buffers newcap) 0 old (omega (arith, long, h)) in
      sym (take-take k v.size new l) ∙ ap (take k) whole ∙ take-take k v.size v.buf l

  resize-Resized :
      (v : Vector) (count n : ℕ)
      → ((k m : ℕ) → length (malloc k m) ≡ m)
      → IsValid v count
      → n * v.object_size ≤ 2 ^ 63
      → (v' : Vector) × (resize malloc v n ≡ some v') × Resized v v' n
  unfolding resize resize_within rebuffer
  resize-Resized v count n allocates valid h =
      let m = mul64 n v.object_size in
      let exact : m ≡ n * v.object_size = omega arith in
      elim (Bool-cases (ltb v.cap m)) [
        | inr x ↦ (
          record v { size = m },
          rw x refl,
          record {
            valid = record {
              storage = valid.storage;
              size_in = ground arith;
              cap_small = valid.cap_small;
              cap_some = valid.cap_some;
              object_some = valid.object_some;
              whole = exact;
            };
            same_object = refl;
            kept = λ k l. refl;
          },
        )
        | inl x ↦
            let (c, returns, enough, more, near) =
              grow-enough 64 v.cap m valid.cap_some (omega (arith, exact, h))
                (omega (arith, valid.cap_some)) in
            let fits : c < word = ground (arith, near, exact, h, valid.cap_small) in
            (
              record (rebuffer malloc v c) { size = m },
              rw (x, returns) refl,
              record {
                valid = record {
                  storage =
                      length-blit (malloc v.buffers c) 0 (take v.size v.buf)
                      ∙ allocates v.buffers c;
                  size_in = enough;
                  cap_small = fits;
                  cap_some = omega (arith, more, valid.cap_some);
                  object_some = valid.object_some;
                  whole = exact;
                };
                same_object = refl;
                kept = λ k l.
                    rebuffer-kept v c k (allocates v.buffers c) (omega (arith, more, valid.size_in))
                      (omega (arith, valid.storage, valid.size_in)) l;
              },
            )
      ]

  count-size : (v : Vector) (count : ℕ) → IsValid v count → vector_size v ≡ count
  unfolding vector_size
  count-size v count valid =
      ap (λ s. s / v.object_size) valid.whole
      ∙ mul-div_cancel count (omega (arith, valid.object_some))

  append-resize :
      (v v' : Vector) (n : ℕ) (bytes : Option (List ℕ))
      → resize malloc v (add64 (vector_size v) n) ≡ some v'
      → let added = mul64 v'.object_size n in
        append malloc v bytes n
        ≡ some (record v' { buf = blit v'.buf (sub64 v'.size added) (source malloc bytes added) })
  unfolding append
  append-resize v v' n bytes h = rw (append, h) refl

  -- On a valid vector of `count` objects, where `kMalloc` hands out buffers of the sizes asked for
  -- and the new size is at most 2 ^ 63 bytes, `vector_Append` of `n` objects returns, and leaves a
  -- valid vector of `count + n` objects, whose bytes are the old ones and then those handed in, or
  -- zeros for NULL.
  pub append-contents :
      (v : Vector) (count n : ℕ) (bytes : Option (List ℕ))
      → ((k m : ℕ) → length (malloc k m) ≡ m)
      → IsValid v count
      → (count + n) * v.object_size ≤ 2 ^ 63
      → length (source malloc bytes (n * v.object_size)) ≡ n * v.object_size
      → (v' : Vector) × (append malloc v bytes n ≡ some v')
        × IsValid v' (count + n)
        × (contents v' ≡ contents v ++ source malloc bytes (n * v.object_size))
  append-contents v count n bytes allocates valid h long =
      let total = count + n in
      let sum : (count + n) * v.object_size ≡ count * v.object_size + n * v.object_size =
        add-mul count n v.object_size in
      let bound : total ≤ total * v.object_size =
        le-mul_of_pos_right total (omega (arith, valid.object_some)) in
      let few : total < word = omega (arith, h, bound) in
      let objects : add64 (vector_size v) n ≡ total =
        omega (arith, count-size v count valid, few) in
      let (v', returns, resized) = resize-Resized v count total allocates valid h in
      let added = mul64 v'.object_size n in
      let exact : added ≡ n * v.object_size =
        ap (λ o. mul64 o n) resized.same_object
        ∙ ap (λ m. m % word) (mul_comm v.object_size n)
        ∙ omega (arith, sum, h) in
      let start = sub64 v'.size added in
      let written = source malloc bytes added in
      let size_at : v'.size ≡ total * v.object_size =
        resized.valid.whole ∙ ap (λ o. total * o) resized.same_object in
      let old : start ≡ v.size = omega (arith, size_at, exact, sum, valid.whole, h) in
      let length_at : length written ≡ n * v.object_size =
        ap (λ m. length (source malloc bytes m)) exact ∙ long in
      let end_at : v'.size ≡ start + length written =
        omega (arith, size_at, old, length_at, sum, valid.whole) in
      (
        record v' { buf = blit v'.buf start written },
        append-resize v v' n bytes (ap (resize malloc v) objects ∙ returns),
        record {
          storage = length-blit v'.buf start written ∙ resized.valid.storage;
          size_in = resized.valid.size_in;
          cap_small = resized.valid.cap_small;
          cap_some = resized.valid.cap_some;
          object_some = resized.valid.object_some;
          whole = resized.valid.whole;
        },
        ap (λ m. take m (blit v'.buf start written)) end_at
            ∙ take-blit_end v'.buf start written
                (omega (arith, end_at, resized.valid.size_in, resized.valid.storage))
            ∙ ap₂ ◌++◌ (ap (λ m. take m v'.buf) old ∙ resized.kept v.size (omega arith))
                (ap (source malloc bytes) exact),
      )

  rebuffer-contents :
      (v : Vector) (newcap count : ℕ)
      → ((k m : ℕ) → length (malloc k m) ≡ m)
      → IsValid v count
      → v.size ≤ newcap
      → (contents (rebuffer malloc v newcap) ≡ contents v)
        × ((rebuffer malloc v newcap).cap ≡ newcap)
  unfolding rebuffer
  rebuffer-contents v newcap count allocates valid h = (
    rebuffer-kept v newcap v.size (allocates v.buffers newcap) h
        (omega (arith, valid.storage, valid.size_in)) (omega arith),
    refl,
  )

  -- `vector_ShrinkBuffer` and `vector_Reserve` of a valid vector keep its bytes; the first leaves a
  -- buffer of exactly their number, the second one that is no smaller than asked for, where as many
  -- bytes are a 64-bit number.
  pub shrink_buffer-contents :
      (v : Vector) (count objects : ℕ)
      → ((k m : ℕ) → length (malloc k m) ≡ m)
      → IsValid v count
      → v.object_size * objects < word
      → (contents (shrink_buffer malloc v) ≡ contents v)
        × ((shrink_buffer malloc v).cap ≡ v.size)
        × (contents (reserve malloc v objects) ≡ contents v)
        × (v.object_size * objects ≤ (reserve malloc v objects).cap)
  unfolding shrink_buffer reserve
  shrink_buffer-contents v count objects allocates valid fits =
      let m = mul64 v.object_size objects in
      let shrunk = rebuffer-contents v v.size count allocates valid (omega arith) in
      let reserved : v.size ≤ m
          → (contents (rebuffer malloc v m) ≡ contents v) × ((rebuffer malloc v m).cap ≡ m) =
        rebuffer-contents v m count allocates valid in
      let exact : m ≡ v.object_size * objects = omega (arith, fits) in
      ground (arith, shrunk, reserved, valid.size_in, exact)

  -- After `vector_Clear` and `vector_ShrinkBuffer` a `vector_Push` never returns: the loop of the
  -- `vector_Resize` that it calls is still going on after however many rounds.
  pub push-shrink_buffer :
      (v : Vector) (bytes : Option (List ℕ)) (rounds : ℕ)
      → 1 ≤ v.object_size
      → v.object_size < word
      → 1 ≤ v.cap
      → let v' = shrink_buffer malloc (clear v) in
        (push malloc v' bytes ≡ none)
        × (resize_within malloc rounds v' (add64 (vector_size v') 1) ≡ none)
  unfolding shrink_buffer clear rebuffer vector_size push append resize resize_within
  push-shrink_buffer v bytes rounds sized small h = (
    ground (arith, grow-forever 64 v.object_size sized),
    ground (arith, grow-forever rounds v.object_size sized),
  )
