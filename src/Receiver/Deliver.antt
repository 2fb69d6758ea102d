-- ===== src/Receiver/Deliver.antt =====
-- work_thread of src/rdma_transport.c on one complete array: the bytes handed to Java are those of
-- the message that was cut.
use spark_rdma_shuffle_engin.Base.{
  ℕ, suc, ◌+◌, ◌*◌, ◌≤◌, ◌<◌, ◌^◌, ◌≡◌, refl, sym, ap, ◌∙◌, List, [], ◌∷◌, ◌++◌, append-nil,
  append_assoc, arith, length, take, drop, length-take, length-drop, take-append-drop, Ends,
  Ends-mono, Ends-ok, ok, ==_iff, le→ltb, lt→ltb, add32,
}
use spark_rdma_shuffle_engin.Memory.{Ptr, Store, ChunkHeader, rdma_body_size}
use spark_rdma_shuffle_engin.Memory.Bytes.{Body, write_bytes, read_bytes, read_bytes-write_end}
use spark_rdma_shuffle_engin.Memory.Frames.{frames, cut_frames, piece_frame, Shows, frames-Shows}
use spark_rdma_shuffle_engin.BufferPool.{Machine}
use spark_rdma_shuffle_engin.Transport.{VArray}
use spark_rdma_shuffle_engin.Receiver.{
  sum_lengths, set_regions, release_all, deliver_chunks, deliver,
}

module _ (data_id num len : ℕ) (st : Store) where
  -- The chunk's frame, out of the frames of all.
  first-Shows :
      (i : ℕ) (now : List ℕ) (c : Ptr) (cs : List Ptr)
      → frames st (c ∷ cs) ≡ cut_frames data_id num len i (suc (length cs)) now
      → Shows st c cs
          (piece_frame data_id num len i (take rdma_body_size now))
          (cut_frames data_id num len (suc i) (length cs) (drop rdma_body_size now))
  first-Shows i now c cs e = frames-Shows st c cs _ _ e

  sum_lengths-ok :
      (i acc : ℕ) (now : List ℕ) (cs : List Ptr)
      → frames st cs ≡ cut_frames data_id num len i (length cs) now
      → length now ≤ length cs * rdma_body_size
      → acc + length now < 2 ^ 32
      → sum_lengths st data_id acc cs ≡ ok (acc + length now)
  unfolding sum_lengths
  sum_lengths-ok i acc now [] e fits small = ap ok (omega arith)
  sum_lengths-ok i acc now (c ∷ cs) e fits small =
      let s = first-Shows i now c cs e in
      let size : (st c).header.chunk_len ≡ length (take rdma_body_size now) =
        ap (λ (h : ChunkHeader). h.chunk_len) s.header in
      let next : add32 acc (st c).header.chunk_len ≡ acc + length (take rdma_body_size now) =
        omega (arith, size, length-take rdma_body_size now) in
      let id : data_id ≡ (st c).header.data_id =
        sym (ap (λ (h : ChunkHeader). h.data_id) s.header) in
      rw (next, (==_iff data_id (st c).header.data_id).1 id)
        (sum_lengths-ok (suc i) (acc + length (take rdma_body_size now)) (drop rdma_body_size now)
            cs s.rest (omega (arith, length-drop rdma_body_size now))
            (omega (arith, length-drop rdma_body_size now, length-take rdma_body_size now))
          ∙ ap ok (omega (arith, length-drop rdma_body_size now, length-take rdma_body_size now)))

  set_regions-bytes :
      (i pos : ℕ) (now : List ℕ) (cs : List Ptr) (jba : Body) (total : ℕ)
      → frames st cs ≡ cut_frames data_id num len i (length cs) now
      → length now ≤ length cs * rdma_body_size
      → pos + length now ≤ total
      → Ends
          (set_regions st total pos cs jba)
          (λ jba'. read_bytes jba' 0 (pos + length now) ≡ read_bytes jba 0 pos ++ now)
  unfolding set_regions
  set_regions-bytes i pos [] [] jba total e fits room =
      ap (read_bytes jba 0) (omega arith) ∙ sym (append-nil (read_bytes jba 0 pos))
  set_regions-bytes i pos (x ∷ now) [] jba total e fits room = absurd (omega arith)
  set_regions-bytes i pos now (c ∷ cs) jba total e fits room =
      let piece : List ℕ = take rdma_body_size now in
      let left : List ℕ = drop rdma_body_size now in
      let s = first-Shows i now c cs e in
      let size : (st c).header.chunk_len ≡ length piece =
        ap (λ (h : ChunkHeader). h.chunk_len) s.header in
      let whole : pos + length now ≡ pos + length piece + length left =
        omega (arith, length-take rdma_body_size now, length-drop rdma_body_size now) in
      rw
        (
          s.payload,
          size,
          le→ltb (length piece) rdma_body_size (omega (arith, length-take rdma_body_size now)),
          le→ltb (pos + length piece) total (omega (arith, whole, room)),
        )
        (Ends-mono _ _ (set_regions st total (pos + length piece) cs (write_bytes jba pos piece))
          (set_regions-bytes (suc i) (pos + length piece) left cs (write_bytes jba pos piece) total
            s.rest (omega (arith, length-drop rdma_body_size now)) (omega (arith, whole, room)))
          (λ jba' h.
            ap (read_bytes jba' 0) whole
            ∙ h
            ∙ ap (λ (t : List ℕ). t ++ left) (read_bytes-write_end jba pos piece)
            ∙ append_assoc (read_bytes jba 0 pos) piece left
            ∙ ap (◌++◌ (read_bytes jba 0 pos)) (take-append-drop rdma_body_size now)))

module _ (data_id num : ℕ) (msg : List ℕ) (m : Machine) (small : length msg < 2 ^ 31) where
  deliver_chunks-message :
      (cs : List Ptr)
      → 0 < length cs
      → length msg ≤ length cs * rdma_body_size
      → frames m.store cs ≡ cut_frames data_id num (length msg) 0 (length cs) msg
      → deliver_chunks data_id cs m
        ≡ ok (record { bytes = msg; len = length msg }, release_all cs m)
  unfolding deliver_chunks
  deliver_chunks-message [] h fits e = absurd (omega arith)
  deliver_chunks-message (c ∷ cs) h fits e =
      let sum : sum_lengths m.store data_id 0 (c ∷ cs) ≡ ok (length msg) =
        sum_lengths-ok data_id num (length msg) m.store 0 0 msg (c ∷ cs) e fits (omega arith)
        ∙ ap ok (omega arith) in
      let total : (m.store c).header.data_len ≡ length msg =
        ap (λ (h : ChunkHeader). h.data_len)
          (first-Shows data_id num (length msg) m.store 0 msg c cs e).header in
      let (jba, filled, bytes) = Ends-ok _ (set_regions m.store (length msg) 0 (c ∷ cs) (λ _. 0)) (
        set_regions-bytes data_id num (length msg) m.store 0 0 msg (c ∷ cs) (λ _. 0) (length msg) e
          fits (omega arith)) in
      let read : read_bytes jba 0 (length msg) ≡ msg =
        ap (read_bytes jba 0) (omega arith) ∙ bytes ∙ unfold read_bytes in refl in
      rw (
        sum,
        (==_iff (m.store c).header.data_len (length msg)).1 total,
        lt→ltb (length msg) (2 ^ 31) small,
        filled,
        read,
      )

-- Of an array with at least one chunk, whose chunks have room for a message of less than 2^31
-- bytes and show it cut in pieces under the array's id, exactly the message is handed to Java,
-- every check passes, no read is out of bounds, and each chunk is released.
pub deliver-message :
    (a : VArray) (num : ℕ) (msg : List ℕ) (m : Machine)
    → 0 < length a.chunks
    → length msg ≤ length a.chunks * rdma_body_size
    → length msg < 2 ^ 31
    → frames m.store a.chunks ≡ cut_frames a.data_id num (length msg) 0 (length a.chunks) msg
    → deliver a m ≡ ok (record { bytes = msg; len = length msg }, release_all a.chunks m)
unfolding deliver
deliver-message a num msg m h fits small e =
    deliver_chunks-message a.data_id num msg m small a.chunks h fits e
