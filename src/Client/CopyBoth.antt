-- ===== src/Client/CopyBoth.antt =====
-- copy_header_and_body_to_rdma of src/rdma_transport_client.c: the chunks hold the header and the
-- body as one message.
use spark_rdma_shuffle_engin.Base.{
  ℕ, suc, ◌+◌, ◌-◌, ◌≤◌, ◌<◌, ◌^◌, ◌≡◌, refl, sym, ap, ap₂, subst, ◌∙◌, false, List, [], ◌∷◌, ◌++◌,
  arith, mem, length, length-append, take, drop, take-all, take-append, drop-append, take-append_le,
  drop-append_le, length-take, length-drop, Distinct, Ends, Outcome, sub32, add32, lt→ltb, le→ltb,
  dec_lt, ◌>>=◌,
}
use spark_rdma_shuffle_engin.Memory.{Ptr, Store, Chunk, update, rdma_body_size}
use spark_rdma_shuffle_engin.Memory.Bytes.{
  memcpy, memcpy-ok, Body, write_bytes, read_bytes, read_bytes-write_end, read_bytes-write_bytes,
}
use spark_rdma_shuffle_engin.Memory.Frames.{Frame, frame_of, piece_frame, cut_frames}
use spark_rdma_shuffle_engin.Transport.{VArray}
use spark_rdma_shuffle_engin.Client.{
  copy_length, filled, copy_body_chunks, copy_header_chunks, copy_header_and_body_to_rdma,
  chunk_count,
}
use spark_rdma_shuffle_engin.Client.Copy.{
  Copied, Copied-cons, IsPiece, copy_length-IsPiece, Needs, Needs-drop, IsPiece-left,
  chunk_count-Needs, round-Copied,
}

-- A body written in two parts reads as their concatenation.
read_two :
    (b : Body) (xs ys : List ℕ)
    → read_bytes (write_bytes (write_bytes b 0 xs) (length xs) ys) 0 (length xs + length ys)
      ≡ xs ++ ys
read_two b xs ys =
    read_bytes-write_end (write_bytes b 0 xs) (length xs) ys
    ∙ ap (λ (t : List ℕ). t ++ ys) (read_bytes-write_bytes b 0 xs)

module _ (data_id chunk_num len : ℕ) where
  copy_body_chunks-Copied :
      (i now_len : ℕ) (cs : List Ptr) (now : List ℕ) (st : Store)
      → Needs (length cs) now
      → now_len ≡ length now
      → length now < 2 ^ 32
      → Distinct cs
      → Ends
          (copy_body_chunks data_id chunk_num len i now_len cs now st)
          (Copied st cs (cut_frames data_id chunk_num len i (length cs) now))
  unfolding copy_body_chunks
  copy_body_chunks-Copied i now_len [] now st need e small d = record {
    shown = refl;
    outside = λ a o. refl;
    same_mr = λ a. refl;
  }
  copy_body_chunks-Copied i now_len (c ∷ cs) now st need e small d =
      let piece = subst (λ t. IsPiece now (copy_length t)) (sym e) (copy_length-IsPiece now) in
      round-Copied data_id chunk_num len i (copy_length now_len) now c cs _ st
        (copy_body_chunks data_id chunk_num len (suc i) (sub32 now_len (copy_length now_len)) cs)
        piece d.0
        (λ ch.
          copy_body_chunks-Copied (suc i) (sub32 now_len (copy_length now_len)) cs
            (drop rdma_body_size now) (update st c ch) (Needs-drop (length cs) now need)
            (IsPiece-left now (copy_length now_len) now_len piece e small)
            (omega (arith, length-drop rdma_body_size now)) d.1)

  -- The chunk that takes the end of the header and the start of the body.
  mixed-frame :
      (i copy_len : ℕ) (now body : List ℕ) (c : Chunk)
      → IsPiece (now ++ body) copy_len
      → length now ≤ copy_len
      → frame_of (
          filled data_id chunk_num len i copy_len c (
            write_bytes
              (write_bytes c.body 0 now)
              (length now)
              (take (copy_len - length now) body)))
        ≡ piece_frame data_id chunk_num len i (take rdma_body_size (now ++ body))
  mixed-frame i copy_len now body c piece over =
      let n : ℕ = copy_len - length now in
      let size : length (take n body) ≡ n =
        omega (arith, length-take n body, piece.within, length-append now body) in
      let all : now ++ take n body ≡ take rdma_body_size (now ++ body) =
        sym (take-append now body copy_len over) ∙ piece.bytes in
      let whole : copy_len ≡ length now + length (take n body) = omega (arith, size) in
      ap₂
        (λ (l : ℕ) (t : List ℕ). record {
          header = record {
            flags = 0;
            chunk_id = i;
            chunk_len = l;
            chunk_num = chunk_num;
            data_id = data_id;
            data_len = len;
          };
          payload = t;
        })
        piece.size
        (ap
            (λ l.
              read_bytes (write_bytes (write_bytes c.body 0 now) (length now) (take n body)) 0 l)
            whole
          ∙ read_two c.body now (take n body)
          ∙ all)

  mixed-Copied :
      (i copy_len head_len : ℕ) (now body : List ℕ) (c : Ptr) (cs : List Ptr) (fs : List Frame)
      (st : Store) (rest : List ℕ → Store → Outcome Store)
      → IsPiece (now ++ body) copy_len
      → head_len ≡ length now
      → length now ≤ copy_len
      → mem c cs ≡ false
      → ((ch : Chunk)
          → Ends
              (rest (drop rdma_body_size (now ++ body)) (update st c ch))
              (Copied (update st c ch) cs fs))
      → Ends
          (memcpy (st c).body 0 now head_len >>= λ b1.
            memcpy b1 head_len body (copy_len - head_len) >>= λ b2.
            rest
              (drop (copy_len - head_len) body)
              (update st c (filled data_id chunk_num len i copy_len (st c) b2)))
          (Copied st
            (c ∷ cs)
            (piece_frame data_id chunk_num len i (take rdma_body_size (now ++ body)) ∷ fs))
  mixed-Copied i copy_len head_len now body c cs fs st rest piece e over out ih =
      let left : drop (copy_len - length now) body ≡ drop rdma_body_size (now ++ body) =
        sym (drop-append now body copy_len over) ∙ piece.rest in
      rw
        (
          e,
          memcpy-ok (st c).body 0 now (length now) (omega (arith, piece.fits)) (omega arith),
          take-all (length now) now (omega arith),
          memcpy-ok (write_bytes (st c).body 0 now) (length now) body (copy_len - length now)
              (omega (arith, piece.fits)) (omega (arith, piece.within, length-append now body)),
          left,
        )
        (Copied-cons st c _ cs _ fs _ out (mixed-frame i copy_len now body (st c) piece over) refl
          (ih _))

  -- A chunk that the header fills.
  whole-Copied :
      (i copy_len : ℕ) (now body : List ℕ) (c : Ptr) (cs : List Ptr) (fs : List Frame) (st : Store)
      (rest : List ℕ → Store → Outcome Store)
      → copy_len ≡ rdma_body_size
      → rdma_body_size ≤ length now
      → mem c cs ≡ false
      → ((ch : Chunk)
          → Ends (rest (drop rdma_body_size now) (update st c ch)) (Copied (update st c ch) cs fs))
      → Ends
          (memcpy (st c).body 0 now rdma_body_size >>= λ b.
            rest
              (drop rdma_body_size now)
              (update st c (filled data_id chunk_num len i copy_len (st c) b)))
          (Copied st
            (c ∷ cs)
            (piece_frame data_id chunk_num len i (take rdma_body_size (now ++ body)) ∷ fs))
  whole-Copied i copy_len now body c cs fs st rest e long out ih =
      rw (e, take-append_le rdma_body_size now body long)
        (round-Copied data_id chunk_num len i rdma_body_size now c cs fs st rest
          (record {
            size = omega (arith, length-take rdma_body_size now);
            bytes = refl;
            rest = refl;
            fits = omega arith;
            within = long;
          })
          out ih)

  copy_header_chunks-Copied :
      (i head_len now_len : ℕ) (body : List ℕ) (cs : List Ptr) (now : List ℕ) (st : Store)
      → Needs (length cs) (now ++ body)
      → head_len ≡ length now
      → now_len ≡ length (now ++ body)
      → length (now ++ body) < 2 ^ 32
      → Distinct cs
      → Ends
          (copy_header_chunks data_id chunk_num len i head_len now_len body cs now st)
          (Copied st cs (cut_frames data_id chunk_num len i (length cs) (now ++ body)))
  unfolding copy_header_chunks
  copy_header_chunks-Copied i head_len now_len body [] now st need eh e small d = record {
    shown = refl;
    outside = λ a o. refl;
    same_mr = λ a. refl;
  }
  copy_header_chunks-Copied i head_len now_len body (c ∷ cs) now st need eh e small d =
      let copy_len : ℕ = copy_length now_len in
      let piece : IsPiece (now ++ body) copy_len =
        subst (λ t. IsPiece (now ++ body) (copy_length t)) (sym e)
          (copy_length-IsPiece (now ++ body)) in
      let left = IsPiece-left (now ++ body) copy_len now_len piece e small in
      let need' = Needs-drop (length cs) (now ++ body) need in
      let small' : length (drop rdma_body_size (now ++ body)) < 2 ^ 32 =
        omega (arith, length-drop rdma_body_size (now ++ body)) in
      elim (dec_lt head_len rdma_body_size) [
        | yes ends ↦
            let over : length now ≤ copy_len = omega (
              arith,
              piece.size,
              length-take rdma_body_size (now ++ body),
              length-append now body,
            ) in
            let second : sub32 copy_len head_len ≡ copy_len - head_len =
              omega (arith, piece.fits) in
            rw (lt→ltb head_len rdma_body_size ends, second)
              (mixed-Copied i copy_len head_len now body c cs _ st
                (copy_body_chunks data_id chunk_num len (suc i) (sub32 now_len copy_len) cs) piece
                eh over d.0
                (λ ch.
                  copy_body_chunks-Copied (suc i) (sub32 now_len copy_len) cs
                    (drop rdma_body_size (now ++ body)) (update st c ch) need' left small' d.1))
        | no more ↦
            let cut : drop rdma_body_size now ++ body ≡ drop rdma_body_size (now ++ body) =
              sym (drop-append_le rdma_body_size now body (omega (arith, eh))) in
            rw (le→ltb rdma_body_size head_len (omega arith)) (
              whole-Copied i copy_len now body c cs _ st
                (copy_header_chunks data_id chunk_num len (suc i) (sub32 head_len rdma_body_size)
                  (sub32 now_len copy_len) body cs)
                (omega (
                  arith,
                  piece.size,
                  length-take rdma_body_size (now ++ body),
                  length-append now body,
                ))
                (omega (arith, eh)) d.0
                (λ ch.
                  subst
                    (λ t.
                      Ends
                        (copy_header_chunks data_id chunk_num len (suc i)
                          (sub32 head_len rdma_body_size) (sub32 now_len copy_len) body cs
                          (drop rdma_body_size now) (update st c ch))
                        (Copied (update st c ch) cs
                          (cut_frames data_id chunk_num len (suc i) (length cs) t)))
                    cut
                    (copy_header_chunks-Copied (suc i) (sub32 head_len rdma_body_size)
                      (sub32 now_len copy_len) body cs (drop rdma_body_size now) (update st c ch)
                      (rw cut need')
                      (omega (arith, eh, length-drop rdma_body_size now, length-append now body))
                      (left ∙ ap length (sym cut)) (rw cut small') d.1)))
      ]

-- For an array of distinct chunks, as many as a header and a body of together less than 2^32
-- bytes need, `copy_header_and_body_to_rdma` never copies out of bounds, wherever the header
-- ends; the chunks then show the header followed by the body, cut in pieces as one message, and
-- no other chunk and no memory region changes.
pub copy_both-cut_frames :
    (arr : VArray) (header body : List ℕ) (st : Store)
    → length (header ++ body) < 2 ^ 32
    → Distinct arr.chunks
    → arr.size ≡ length arr.chunks
    → arr.size ≡ chunk_count (length (header ++ body))
    → Ends (copy_header_and_body_to_rdma arr header (length header) body (length body) st) (
        Copied st arr.chunks
          (cut_frames arr.data_id arr.size (length (header ++ body)) 0 arr.size (header ++ body)))
unfolding copy_header_and_body_to_rdma
copy_both-cut_frames arr header body st small d size count =
    let len : add32 (length header) (length body) ≡ length (header ++ body) =
      omega (arith, length-append header body) in
    subst
      (λ n. Ends (copy_header_and_body_to_rdma arr header (length header) body (length body) st) (
        Copied st arr.chunks
          (cut_frames arr.data_id arr.size (length (header ++ body)) 0 n (header ++ body))))
      (sym size)
      (rw len (
        copy_header_chunks-Copied arr.data_id arr.size (length (header ++ body)) 0 (length header)
          (length (header ++ body)) body arr.chunks header st
          (subst (λ n. Needs n (header ++ body)) (sym count ∙ size)
            (chunk_count-Needs (header ++ body)))
          refl refl small d))
