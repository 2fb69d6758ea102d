-- ===== src/Memory/Frames.antt =====
-- What a chunk says on the wire: its header and as many bytes of its body as the header counts.
use mathlib.Core.List.{tail}
use spark_rdma_shuffle_engin.Base.{ℕ, zero, suc, ◌≡◌, List, [], ◌∷◌, take, drop, length, ap}
use spark_rdma_shuffle_engin.Memory.{Ptr, ChunkHeader, Chunk, Store, rdma_body_size}
use spark_rdma_shuffle_engin.Memory.Bytes.{read_bytes}

pub record Frame : Type 0 where
  pub header : ChunkHeader
  pub payload : List ℕ

abbrev pub frame_of : Chunk → Frame
frame_of c = record { header = c.header; payload = read_bytes c.body 0 c.header.chunk_len }

abbrev pub frames : Store → List Ptr → List Frame
frames st [] = []
frames st (c ∷ cs) = frame_of (st c) ∷ frames st cs

-- Independent of the code: a message cut into `n` pieces, the chunks from number `i` on.
abbrev pub piece_header : (data_id chunk_num data_len i : ℕ) (piece : List ℕ) → ChunkHeader
piece_header data_id chunk_num data_len i piece = record {
  flags = 0;
  chunk_id = i;
  chunk_len = length piece;
  chunk_num = chunk_num;
  data_id = data_id;
  data_len = data_len;
}

abbrev pub piece_frame : (data_id chunk_num data_len i : ℕ) (piece : List ℕ) → Frame
piece_frame data_id chunk_num data_len i piece = record {
  header = piece_header data_id chunk_num data_len i piece;
  payload = piece;
}

abbrev pub cut_frames : (data_id chunk_num data_len i n : ℕ) → List ℕ → List Frame
cut_frames data_id chunk_num data_len i zero msg = []
cut_frames data_id chunk_num data_len i (suc n) msg =
    piece_frame data_id chunk_num data_len i (take rdma_body_size msg)
    ∷ cut_frames data_id chunk_num data_len (suc i) n (drop rdma_body_size msg)

-- What an equation between shown and expected frames says of the first chunk and of the others.
pub record Shows (st : Store) (c : Ptr) (cs : List Ptr) (f : Frame) (fs : List Frame) : Type 0 where
  pub header : (st c).header ≡ f.header
  pub payload : read_bytes (st c).body 0 (st c).header.chunk_len ≡ f.payload
  pub rest : frames st cs ≡ fs

abbrev head_or : Frame → List Frame → Frame
head_or f [] = f
head_or f (g ∷ gs) = g

pub frames-Shows :
    (st : Store) (c : Ptr) (cs : List Ptr) (f : Frame) (fs : List Frame)
    → frames st (c ∷ cs) ≡ f ∷ fs
    → Shows st c cs f fs
frames-Shows st c cs f fs e = record {
  header = ap (λ (l : List Frame). (head_or f l).header) e;
  payload = ap (λ (l : List Frame). (head_or f l).payload) e;
  rest = ap tail e;
}
