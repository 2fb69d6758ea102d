-- ===== src/Memory/Bytes.antt =====
-- The body of a chunk as bytes: `memcpy` into it, and reading it back.
use mathlib.Core.Path.{fun_ext}
use spark_rdma_shuffle_engin.Base.{
  ℕ, zero, suc, ℕ_discrete, ◌+◌, ◌≤◌, ◌<◌, ◌≡◌, refl, ap, ap₂, ◌∙◌, List, [], ◌∷◌, ◌++◌, arith, ltb,
  ◌==◌, ne→==, ==_iff, le→ltb, if◌then◌else◌, length, take, Outcome, ok, fault,
}
use spark_rdma_shuffle_engin.Memory.{rdma_body_size}

abbrev pub Body : Type 0
Body = ℕ → ℕ

unfoldable pub write_bytes : Body → ℕ → List ℕ → Body
write_bytes body off [] i = body i
write_bytes body off (x ∷ xs) i = if i == off then x else write_bytes body (suc off) xs i

unfoldable pub read_bytes : Body → ℕ → ℕ → List ℕ
read_bytes body off zero = []
read_bytes body off (suc n) = body off ∷ read_bytes body (suc off) n

-- `memcpy(chunk->body + off, src, n)`, where `src` holds the bytes up to the end of its object. A
-- copy past the end of the body or of the source is undefined.
unfoldable pub memcpy : Body → ℕ → List ℕ → ℕ → Outcome Body
memcpy body off src n =
    if ltb rdma_body_size (off + n)
    then fault
    else if ltb (length src) n
    then fault
    else ok (write_bytes body off (take n src))

-- What stands before the bytes written stays.
write_bytes-below :
    (body : Body) (off : ℕ) (xs : List ℕ) (i : ℕ) → i < off → write_bytes body off xs i ≡ body i
unfolding write_bytes
write_bytes-below body off [] i h = refl
write_bytes-below body off (x ∷ xs) i h =
    rw (ne→== i off (omega arith)) (write_bytes-below body (suc off) xs i (omega arith))

pub read_bytes-below :
    (body : Body) (off : ℕ) (xs : List ℕ) (from n : ℕ)
    → from + n ≤ off
    → read_bytes (write_bytes body off xs) from n ≡ read_bytes body from n
unfolding read_bytes
read_bytes-below body off xs from zero h = refl
read_bytes-below body off xs from (suc n) h =
    ap₂ ◌∷◌ (write_bytes-below body off xs from (omega arith))
      (read_bytes-below body off xs (suc from) n (omega arith))

-- Reading looks only at the bytes that are read.
read_bytes-cong :
    (b c : Body) (from n : ℕ)
    → ((i : ℕ) → from ≤ i → b i ≡ c i)
    → read_bytes b from n ≡ read_bytes c from n
unfolding read_bytes
read_bytes-cong b c from zero h = refl
read_bytes-cong b c from (suc n) h =
    ap₂ ◌∷◌ (h from (omega arith)) (read_bytes-cong b c (suc from) n (λ i k. h i (omega arith)))

-- The bytes written are read back.
pub read_bytes-write_bytes :
    (body : Body) (off : ℕ) (xs : List ℕ)
    → read_bytes (write_bytes body off xs) off (length xs) ≡ xs
unfolding read_bytes
read_bytes-write_bytes body off [] = refl
read_bytes-write_bytes body off (x ∷ xs) =
    ap₂ ◌∷◌ (unfold write_bytes in rw ((==_iff off off).1 refl)) (
      read_bytes-cong (write_bytes body off (x ∷ xs)) (write_bytes body (suc off) xs) (suc off)
        (length xs) (λ i k. unfold write_bytes in rw (ne→== i off (omega arith)))
      ∙ read_bytes-write_bytes body (suc off) xs)

pub read_bytes-append :
    (body : Body) (off m n : ℕ)
    → read_bytes body off (m + n) ≡ read_bytes body off m ++ read_bytes body (off + m) n
unfolding read_bytes
read_bytes-append body off zero n = ap₂ (read_bytes body) (omega arith) (omega arith)
read_bytes-append body off (suc m) n =
    let e : suc m + n ≡ suc (m + n) = omega arith in
    let e' : suc off + m ≡ off + suc m = omega arith in
    rw e (
      ap (λ t. body off ∷ t)
        (read_bytes-append body (suc off) m n
          ∙ ap (λ t. read_bytes body (suc off) m ++ read_bytes body t n) e'))

-- Bytes written behind the first `n` are read behind them.
pub read_bytes-write_end :
    (body : Body) (n : ℕ) (xs : List ℕ)
    → read_bytes (write_bytes body n xs) 0 (n + length xs) ≡ read_bytes body 0 n ++ xs
read_bytes-write_end body n xs =
    read_bytes-append (write_bytes body n xs) 0 n (length xs)
    ∙ ap₂ ◌++◌ (read_bytes-below body n xs 0 n (omega arith)) (
        ap (λ t. read_bytes (write_bytes body n xs) t (length xs)) (omega arith)
        ∙ read_bytes-write_bytes body n xs)

-- A copy that fits writes the first `n` bytes of the source.
pub memcpy-ok :
    (body : Body) (off : ℕ) (src : List ℕ) (n : ℕ)
    → off + n ≤ rdma_body_size
    → n ≤ length src
    → memcpy body off src n ≡ ok (write_bytes body off (take n src))
unfolding memcpy
memcpy-ok body off src n h k = rw (le→ltb (off + n) rdma_body_size h, le→ltb n (length src) k)

-- Writing looks only at the byte that stands in the same place.
write_bytes-cong :
    (b c : Body) (off : ℕ) (xs : List ℕ) (i : ℕ)
    → b i ≡ c i
    → write_bytes b off xs i ≡ write_bytes c off xs i
unfolding write_bytes
write_bytes-cong b c off [] i h = h
write_bytes-cong b c off (x ∷ xs) i h =
    ap (λ (t : ℕ). if i == off then x else t) (write_bytes-cong b c (suc off) xs i h)

write_two_at :
    (b : Body) (off : ℕ) (xs ys : List ℕ) (i : ℕ)
    → write_bytes (write_bytes b off xs) (off + length xs) ys i ≡ write_bytes b off (xs ++ ys) i
write_two_at b off [] ys i =
    write_bytes-cong (write_bytes b off []) b (off + 0) ys i (unfold write_bytes in refl)
    ∙ ap (λ t. write_bytes b t ys i) (omega arith)
write_two_at b off (x ∷ xs) ys i = elim (ℕ_discrete i off) [
  | yes e ↦
      write_bytes-below (write_bytes b off (x ∷ xs)) (off + length (x ∷ xs)) ys i (omega arith)
      ∙ unfold write_bytes in rw ((==_iff i off).1 e) refl
  | no ne ↦
      write_bytes-cong (write_bytes b off (x ∷ xs)) (write_bytes b (suc off) xs)
        (off + length (x ∷ xs)) ys i (unfold write_bytes in rw (ne→== i off ne) refl)
      ∙ ap (λ t. write_bytes (write_bytes b (suc off) xs) t ys i) (omega arith)
      ∙ write_two_at b (suc off) xs ys i
      ∙ unfold write_bytes in rw (ne→== i off ne) refl
]

-- Two writes, the second behind the first, are one.
pub write_bytes-append :
    (b : Body) (xs ys : List ℕ)
    → write_bytes (write_bytes b 0 xs) (length xs) ys ≡ write_bytes b 0 (xs ++ ys)
write_bytes-append b xs ys = fun_ext (λ i.
    ap (λ t. write_bytes (write_bytes b 0 xs) t ys i) (omega arith) ∙ write_two_at b 0 xs ys i)
