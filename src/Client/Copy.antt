-- ===== src/Client/Copy.antt =====
-- copy_msg_to_rdma of src/rdma_transport_client.c against the message cut into pieces.
use spark_rdma_shuffle_engin.Base.{
  ℕ, suc, ◌+◌, ◌*◌, ◌≤◌, ◌<◌, ◌^◌, ◌≡◌, refl, sym, ap, ap₂, subst, ◌∙◌, false, List, [], ◌∷◌, arith,
  mem, not-mem-cons, length, take, drop, take-all, drop-all, length-take, length-drop, Distinct,
  Ends, Outcome, ok, fault, abort, ℕ_discrete, sub32, lt→ltb, le→ltb, dec_lt, ◌>>=◌,
}
use spark_rdma_shuffle_engin.Memory.{
  Ptr, Store, Chunk, update, update-eq, update-ne, rdma_body_size,
}
use spark_rdma_shuffle_engin.Memory.Bytes.{memcpy, memcpy-ok, write_bytes, read_bytes-write_bytes}
use spark_rdma_shuffle_engin.Memory.Frames.{
  Frame, frame_of, frames, piece_header, piece_frame, cut_frames,
}
use spark_rdma_shuffle_engin.Transport.{VArray}
use spark_rdma_shuffle_engin.Client.{
  copy_length, filled, copy_chunks, copy_msg_to_rdma, chunk_count,
}

-- From `st` to `st'` the chunks `cs` come to show `fs`; no other chunk and no region is touched.
pub record Copied (st : Store) (cs : List Ptr) (fs : List Frame) (st' : Store) : Type 0 where
  pub shown : frames st' cs ≡ fs
  pub outside : (a : Ptr) → mem a cs ≡ false → st' a ≡ st a
  pub same_mr : (a : Ptr) → (st' a).mr ≡ (st a).mr

-- One chunk is filled, then the rest.
pub Copied-cons :
    (st : Store) (c : Ptr) (ch : Chunk) (cs : List Ptr) (f : Frame) (fs : List Frame)
    (r : Outcome Store)
    → mem c cs ≡ false
    → frame_of ch ≡ f
    → ch.mr ≡ (st c).mr
    → Ends r (Copied (update st c ch) cs fs)
    → Ends r (Copied st (c ∷ cs) (f ∷ fs))
Copied-cons st c ch cs f fs (ok st') out shows mr h = record {
  shown = ap₂ ◌∷◌ (ap frame_of (h.outside c out ∙ update-eq st c ch) ∙ shows) h.shown;
  outside = λ a o. let (ne, o') = not-mem-cons a c cs o in h.outside a o' ∙ update-ne st c ch a ne;
  same_mr = λ a. h.same_mr a ∙ elim (ℕ_discrete c a) [
    | yes e ↦
        subst (λ t. (update st c ch t).mr ≡ (st t).mr) e
          (ap (λ (x : Chunk). x.mr) (update-eq st c ch) ∙ mr)
    | no ne ↦ ap (λ (x : Chunk). x.mr) (update-ne st c ch a ne)
  ];
}
Copied-cons st c ch cs f fs fault out shows mr h = h
Copied-cons st c ch cs f fs abort out shows mr h = h

-- The length computed for a piece is the piece's, and so are its bytes and the rest.
pub record IsPiece (now : List ℕ) (copy_len : ℕ) : Type 0 where
  pub size : copy_len ≡ length (take rdma_body_size now)
  pub bytes : take copy_len now ≡ take rdma_body_size now
  pub rest : drop copy_len now ≡ drop rdma_body_size now
  pub fits : copy_len ≤ rdma_body_size
  pub within : copy_len ≤ length now

pub copy_length-IsPiece : (now : List ℕ) → IsPiece now (copy_length (length now))
copy_length-IsPiece now = elim (dec_lt rdma_body_size (length now)) [
  | yes long ↦ rw (lt→ltb rdma_body_size (length now) long) (record {
    size = omega (arith, length-take rdma_body_size now);
    bytes = refl;
    rest = refl;
    fits = omega arith;
    within = omega arith;
  })
  | no short ↦ rw (le→ltb (length now) rdma_body_size (omega arith)) (record {
    size = omega (arith, length-take rdma_body_size now);
    bytes =
        take-all (length now) now (omega arith) ∙ sym (take-all rdma_body_size now (omega arith));
    rest =
        drop-all (length now) now (omega arith) ∙ sym (drop-all rdma_body_size now (omega arith));
    fits = omega arith;
    within = omega arith;
  })
]

-- What is left to copy behind a piece.
pub IsPiece-left :
    (now : List ℕ) (copy_len now_len : ℕ)
    → IsPiece now copy_len
    → now_len ≡ length now
    → length now < 2 ^ 32
    → sub32 now_len copy_len ≡ length (drop rdma_body_size now)
IsPiece-left now copy_len now_len piece e small =
    omega (arith, piece.size, length-take rdma_body_size now, length-drop rdma_body_size now)

-- `n` chunks are exactly what the bytes need.
abbrev pub Needs : ℕ → List ℕ → Type 0
Needs n now = (length now ≤ n * rdma_body_size) × (n * rdma_body_size < length now + rdma_body_size)

pub Needs-drop : (n : ℕ) (now : List ℕ) → Needs (suc n) now → Needs n (drop rdma_body_size now)
Needs-drop n now h = omega (arith, h.0, h.1, length-drop rdma_body_size now)

pub chunk_count-Needs : (msg : List ℕ) → Needs (chunk_count (length msg)) msg
chunk_count-Needs msg = ground arith

-- A header and bytes that are the piece make the piece's frame.
filled-frame :
    (data_id chunk_num len i copy_len : ℕ) (now : List ℕ) (c : Chunk)
    → IsPiece now copy_len
    → frame_of
        (filled data_id chunk_num len i copy_len c (write_bytes c.body 0 (take copy_len now)))
      ≡ piece_frame data_id chunk_num len i (take rdma_body_size now)
filled-frame data_id chunk_num len i copy_len now c piece =
    rw (piece.bytes, piece.size)
      (ap
        (λ (t : List ℕ). record {
          header = piece_header data_id chunk_num len i (take rdma_body_size now);
          payload = t;
        })
        (read_bytes-write_bytes c.body 0 (take rdma_body_size now)))

module _ (data_id chunk_num len : ℕ) where
  -- One round: `rest` is what the loop goes on with.
  pub round-Copied :
      (i copy_len : ℕ) (now : List ℕ) (c : Ptr) (cs : List Ptr) (fs : List Frame) (st : Store)
      (rest : List ℕ → Store → Outcome Store)
      → IsPiece now copy_len
      → mem c cs ≡ false
      → ((ch : Chunk)
          → Ends (rest (drop rdma_body_size now) (update st c ch)) (Copied (update st c ch) cs fs))
      → Ends
          (memcpy (st c).body 0 now copy_len >>= λ body.
            rest
              (drop copy_len now)
              (update st c (filled data_id chunk_num len i copy_len (st c) body)))
          (Copied st (c ∷ cs) (piece_frame data_id chunk_num len i (take rdma_body_size now) ∷ fs))
  round-Copied i copy_len now c cs fs st rest piece out ih =
      rw (memcpy-ok (st c).body 0 now copy_len (omega (arith, piece.fits)) piece.within, piece.rest)
        (Copied-cons st c _ cs _ fs _ out
          (filled-frame data_id chunk_num len i copy_len now (st c) piece) refl (ih _))

  copy_chunks-Copied :
      (i now_len : ℕ) (cs : List Ptr) (now : List ℕ) (st : Store)
      → Needs (length cs) now
      → (0 < length cs → now_len ≡ length now)
      → length now < 2 ^ 32
      → Distinct cs
      → Ends
          (copy_chunks data_id chunk_num len i now_len cs now st)
          (Copied st cs (cut_frames data_id chunk_num len i (length cs) now))
  unfolding copy_chunks
  copy_chunks-Copied i now_len [] now st need e small d = record {
    shown = refl;
    outside = λ a o. refl;
    same_mr = λ a. refl;
  }
  copy_chunks-Copied i now_len (c ∷ cs) now st need e small d =
      round-Copied i (copy_length now_len) now c cs _ st
        (copy_chunks data_id chunk_num len (suc i) (sub32 now_len rdma_body_size) cs)
        (subst (λ t. IsPiece now (copy_length t)) (sym (e (omega arith))) (copy_length-IsPiece now))
        d.0
        (λ ch.
          copy_chunks-Copied (suc i) (sub32 now_len rdma_body_size) cs (drop rdma_body_size now)
            (update st c ch) (Needs-drop (length cs) now need)
            (λ more. omega (arith, more, e (omega arith), need.0, length-drop rdma_body_size now))
            (omega (arith, length-drop rdma_body_size now)) d.1)

-- For an array of distinct chunks, as many as a message of less than 2^32 bytes needs,
-- `copy_msg_to_rdma` never copies out of bounds; the chunks then show the message cut in pieces,
-- and no other chunk and no memory region changes.
pub copy_msg-cut_frames :
    (arr : VArray) (msg : List ℕ) (st : Store)
    → length msg < 2 ^ 32
    → Distinct arr.chunks
    → arr.size ≡ length arr.chunks
    → arr.size ≡ chunk_count (length msg)
    → Ends
        (copy_msg_to_rdma arr msg (length msg) st)
        (Copied st arr.chunks (cut_frames arr.data_id arr.size (length msg) 0 arr.size msg))
unfolding copy_msg_to_rdma
copy_msg-cut_frames arr msg st small d size count =
    subst
      (λ n.
        Ends (copy_msg_to_rdma arr msg (length msg) st)
          (Copied st arr.chunks (cut_frames arr.data_id arr.size (length msg) 0 n msg)))
      (sym size)
      (copy_chunks-Copied arr.data_id arr.size (length msg) 0 (length msg) arr.chunks msg st
        (subst (λ n. Needs n msg) (sym count ∙ size) (chunk_count-Needs msg)) (λ h. refl) small d)
