-- ===== src/Receiver/Release.antt =====
-- The last loop of work_thread of src/rdma_transport.c: what giving chunks back leaves.
use spark_rdma_shuffle_engin.Base.{◌≡◌, refl, ap₂, subst, ◌∙◌, List, [], ◌∷◌, ◌++◌, ==_iff}
use spark_rdma_shuffle_engin.Memory.{Ptr, Chunk, SameData}
use spark_rdma_shuffle_engin.Memory.Frames.{Frame, frame_of, frames}
use spark_rdma_shuffle_engin.BufferPool.{Machine, release_rdma_chunk_to_pool}
use spark_rdma_shuffle_engin.BufferPool.Invariant.{IsPool}
use spark_rdma_shuffle_engin.BufferPool.Release.{release-IsPool, release-SameData}
use spark_rdma_shuffle_engin.Receiver.{release_all}

SameData-frame_of : (c d : Chunk) → SameData c d → frame_of d ≡ frame_of c
SameData-frame_of c d h = rw (h.header, h.body) refl

release-frames :
    (c : Ptr) (m : Machine) (cs : List Ptr)
    → frames (release_rdma_chunk_to_pool c m).store cs ≡ frames m.store cs
release-frames c m [] = refl
release-frames c m (a ∷ cs) =
    ap₂ (λ (f : Frame) (fs : List Frame). f ∷ fs)
      (SameData-frame_of (m.store a) ((release_rdma_chunk_to_pool c m).store a)
        (release-SameData c m a))
      (release-frames c m cs)

-- Giving chunks back changes no frame.
pub release_all-frames :
    (rs : List Ptr) (m : Machine) (cs : List Ptr)
    → frames (release_all rs m).store cs ≡ frames m.store cs
unfolding release_all
release_all-frames [] m cs = refl
release_all-frames (r ∷ rs) m cs =
    release_all-frames rs (release_rdma_chunk_to_pool r m) cs ∙ release-frames r m cs

-- The list after its elements are moved, one by one, to the front of another.
abbrev pub moved : List Ptr → List Ptr → List Ptr
moved [] free = free
moved (c ∷ cs) free = moved cs (c ∷ free)

-- Chunks that are the first of those lent by a well-formed pool all go to the front of the free
-- list, in reverse, and the pool stays well formed with the others lent.
pub release_all-IsPool :
    (cs : List Ptr) (m : Machine) (free lent : List Ptr)
    → IsPool m free (cs ++ lent)
    → IsPool (release_all cs m) (moved cs free) lent
unfolding release_all
release_all-IsPool [] m free lent v = v
release_all-IsPool (c ∷ cs) m free lent v =
    release_all-IsPool cs (release_rdma_chunk_to_pool c m) (c ∷ free) lent (
      subst (λ l. IsPool (release_rdma_chunk_to_pool c m) (c ∷ free) l)
        (rw ((==_iff c c).1 refl) refl)
        (release-IsPool m free (c ∷ (cs ++ lent)) c v (rw ((==_iff c c).1 refl) refl)))
