-- ===== src/Util/Vector/Tests.antt =====
-- The theorems on util/vector.c at small vectors.
use helos.Prelude.{
  arith, ℕ, ◌*◌, ◌≤◌, ◌≡◌, refl, none, some, List, [], ◌∷◌, ◌++◌, arith, length, replicate,
  length-replicate, add64,
}
use helos.Util.Vector.{
  resize_within, Vector, vector_size, append, resize, push, source, shrink_buffer, reserve, clear,
}
use helos.Util.Vector.Contents.{
  IsValid, contents, append-contents, shrink_buffer-contents, push-shrink_buffer,
}

abbrev malloc : ℕ → ℕ → List ℕ
malloc k n = replicate n 7

malloc-allocates : (k n : ℕ) → length (malloc k n) ≡ n
malloc-allocates k n = length-replicate n 7

-- One object of two bytes.
abbrev one : Vector
one = record { buf = 1 ∷ 2 ∷ 7 ∷ 7 ∷ []; size = 2; cap = 4; object_size = 2; buffers = 1 }

one-IsValid : IsValid one 1
one-IsValid = omega arith

append-contents_example :
    (v' : Vector) × (append malloc one (some (3 ∷ 4 ∷ 5 ∷ 6 ∷ [])) 2 ≡ some v')
    × IsValid v' 3
    × (contents v' ≡ contents one ++ source malloc (some (3 ∷ 4 ∷ 5 ∷ 6 ∷ [])) (2 * 2))
append-contents_example =
    append-contents malloc one 1 2 (some (3 ∷ 4 ∷ 5 ∷ 6 ∷ [])) malloc-allocates one-IsValid
      (omega arith) refl

shrink_buffer-contents_example :
    (contents (shrink_buffer malloc one) ≡ contents one)
    × ((shrink_buffer malloc one).cap ≡ 2)
    × (contents (reserve malloc one 5) ≡ contents one)
    × (10 ≤ (reserve malloc one 5).cap)
shrink_buffer-contents_example =
    shrink_buffer-contents malloc one 1 5 malloc-allocates one-IsValid (omega arith)

push-shrink_buffer_example :
    let v' = shrink_buffer malloc (clear one) in
    (push malloc v' none ≡ none) × (resize_within malloc 1000 v' (add64 (vector_size v') 1) ≡ none)
push-shrink_buffer_example =
    push-shrink_buffer malloc one none 1000 (omega arith) (omega arith) (omega arith)

pushed :
    push malloc one (some (8 ∷ 9 ∷ []))
    ≡ some (2, record { buf = 1 ∷ 2 ∷ 8 ∷ 9 ∷ []; size = 4; cap = 4; object_size = 2; buffers = 1 })
unfolding push append resize resize_within vector_size
pushed = refl
