-- ===== src/Memory.antt =====
-- The chunks of rdma_buffer_pool.h and the memory that holds them. An address counts chunks, so
-- `&buffer[i]` is `buffer + i`; the body is read by offset.
pub mod Bytes
pub mod Frames
use spark_rdma_shuffle_engin.Base.{
  ℕ, ◌≡◌, ◌≢◌, refl, ne→==, subst, ℕ_discrete, ==_iff, ◌+◌, ◌-◌, ◌*◌, ◌==◌, if◌then◌else◌,
}

abbrev pub Ptr : Type 0
Ptr = ℕ

abbrev pub null : Ptr
null = 0

-- `sizeof` of the packed header: one byte and five words of four bytes
abbrev pub rdma_header_size : ℕ
rdma_header_size = 1 + 5 * 4

abbrev pub rdma_chunk_size : ℕ
rdma_chunk_size = 64 * 1024

abbrev pub rdma_body_size : ℕ
rdma_body_size = rdma_chunk_size - rdma_header_size

abbrev pub rdma_buffer_size : ℕ
rdma_buffer_size = 1024 * 4

pub record ChunkHeader : Type 0 where
  pub flags : ℕ
  pub chunk_id : ℕ
  pub chunk_len : ℕ
  pub chunk_num : ℕ
  pub data_id : ℕ
  pub data_len : ℕ

pub record Chunk : Type 0 where
  pub header : ChunkHeader
  pub body : ℕ → ℕ
  pub mr : Ptr
  pub next : Ptr

abbrev pub Store : Type 0
Store = Ptr → Chunk

abbrev pub update : Store → Ptr → Chunk → Store
update st p c q = if p == q then c else st q

abbrev pub set_next : Store → Ptr → Ptr → Store
set_next st p q = update st p (record (st p) { next = q })

pub update-eq : (st : Store) (p : Ptr) (c : Chunk) → update st p c p ≡ c
update-eq st p c = rw ((==_iff p p).1 refl)

pub update-ne : (st : Store) (p : Ptr) (c : Chunk) (q : Ptr) → p ≢ q → update st p c q ≡ st q
update-ne st p c q h = rw (ne→== p q h)

-- Two stores that differ in `next` pointers only.
pub record SameData (c d : Chunk) : Type 0 where
  pub header : d.header ≡ c.header
  pub body : d.body ≡ c.body
  pub mr : d.mr ≡ c.mr

pub set_next-SameData : (st : Store) (p q a : Ptr) → SameData (st a) (set_next st p q a)
set_next-SameData st p q a = elim (ℕ_discrete p a) [
  | yes e ↦
      subst (λ t. SameData (st t) (set_next st p q t)) e
        (rw (update-eq st p (record (st p) { next = q }))
          (record { header = refl; body = refl; mr = refl }))
  | no ne ↦
      rw (update-ne st p (record (st p) { next = q }) a ne)
        (record { header = refl; body = refl; mr = refl })
]
