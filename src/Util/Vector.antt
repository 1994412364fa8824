-- ===== src/Util/Vector.antt =====
-- util/vector.c and util/vector.h: an array of objects of one size that grows. `buf` is the buffer
-- that the pointer `data` points at, and pointers into it are offsets from its start. What `kMalloc`
-- hands out is an argument, by the number of buffers made before and the size asked for.
pub mod Growth
pub mod Contents
mod Tests
use helos.Prelude.{
  ℕ, zero, suc, ◌+◌, ◌-◌, ◌*◌, ◌/◌, ◌<◌, refl, ap, inl, inr, true, false, Option, none, some, List,
  ltb, ◌==◌, if◌then◌else◌, set, take, replicate, blit, add64, sub64, mul64,
}

-- `vector_Vector`; `buffers` counts the buffers made.
pub record Vector : Type 0 where
  pub buf : List ℕ
  pub size : ℕ
  pub cap : ℕ
  pub object_size : ℕ
  pub buffers : ℕ

-- `while (newcap < newsize) newcap *= 2;`, at most so many times; `none` if it still goes on.
pub grow : ℕ → ℕ → ℕ → Option ℕ
grow zero newcap newsize = if ltb newcap newsize then none else some newcap
grow (suc n) newcap newsize =
    if ltb newcap newsize then grow n (mul64 newcap 2) newsize else some newcap

pub vector_size : Vector → ℕ
vector_size v = v.size / v.object_size

pub capacity : Vector → ℕ
capacity v = v.cap / v.object_size

-- The offset of an object.
pub at : Vector → ℕ → ℕ
at v i = mul64 v.object_size i

pub clear : Vector → Vector
clear v = record v { size = 0 }

module _ (malloc : ℕ → ℕ → List ℕ) where
  pub create : ℕ → Vector
  create object_size = record {
    buf = malloc 0 object_size;
    size = 0;
    cap = object_size;
    object_size = object_size;
    buffers = 1;
  }

  -- `memcpy` of `size` bytes into the new buffer.
  pub rebuffer : Vector → ℕ → Vector
  rebuffer v newcap = record v {
    buf = blit (malloc v.buffers newcap) 0 (take v.size v.buf);
    cap = newcap;
    buffers = v.buffers + 1;
  }

  -- `vector_Resize` with a bound on the rounds of its loop; `none` if the loop still goes on then.
  pub resize_within : ℕ → Vector → ℕ → Option Vector
  resize_within rounds v n =
      let newsize = mul64 n v.object_size in
      if ltb v.cap newsize
      then elim (grow rounds v.cap newsize) [
        | none ↦ none
        | some newcap ↦ some (record (rebuffer v newcap) { size = newsize })
      ]
      else some (record v { size = newsize })

  -- 64 doublings of a 64-bit number are all there are: after them it is 0 for good. `none` is a loop
  -- without an end.
  pub resize : Vector → ℕ → Option Vector
  resize v n = resize_within 64 v n

  -- The bytes behind `data`, or zeros if it is NULL.
  abbrev pub source : Option (List ℕ) → ℕ → List ℕ
  source (some bytes) n = take n bytes
  source none n = replicate n 0

  pub append : Vector → Option (List ℕ) → ℕ → Option Vector
  append v bytes n = elim (resize v (add64 (vector_size v) n)) [
    | none ↦ none
    | some v' ↦
        let addsize = mul64 v'.object_size n in
        let oldsize = sub64 v'.size addsize in
        some (record v' { buf = blit v'.buf oldsize (source bytes addsize) })
  ]

  -- The offset of the object pushed, and the vector.
  pub push : Vector → Option (List ℕ) → Option (ℕ × Vector)
  push v bytes = elim (append v bytes 1) [
    | none ↦ none
    | some v' ↦ some (sub64 v'.size v'.object_size, v')
  ]

  pub shrink_buffer : Vector → Vector
  shrink_buffer v = if v.size == v.cap then v else rebuffer v v.size

  pub reserve : Vector → ℕ → Vector
  reserve v cap =
      let newcap = mul64 v.object_size cap in if ltb v.cap newcap then rebuffer v newcap else v
