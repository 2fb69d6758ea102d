-- ===== src/Receiver/Lengths.antt =====
-- The length that work_thread of src/rdma_transport.c hands to Java is the sum of its chunks'.
use spark_rdma_shuffle_engin.Base.{
  ℕ, ◌+◌, ◌<◌, ◌^◌, ◌≡◌, sym, ap, ◌∙◌, inl, inr, List, [], ◌∷◌, arith, add32, Bool-cases, ltb, ◌==◌,
  Outcome, >>=-eq-ok, ok, fault, abort,
}
use spark_rdma_shuffle_engin.Memory.{Ptr, Store}
use spark_rdma_shuffle_engin.BufferPool.{Machine}
use spark_rdma_shuffle_engin.Transport.{VArray}
use spark_rdma_shuffle_engin.Receiver.{Message, sum_lengths, set_regions, deliver_chunks, deliver}

-- The lengths in the headers, and their sum.
abbrev pub lengths : Store → List Ptr → List ℕ
lengths st [] = []
lengths st (c ∷ cs) = (st c).header.chunk_len ∷ lengths st cs

abbrev pub sum : List ℕ → ℕ
sum [] = 0
sum (n ∷ ns) = n + sum ns

sum_lengths-sum :
    (st : Store) (data_id acc n : ℕ) (cs : List Ptr)
    → acc + sum (lengths st cs) < 2 ^ 32
    → sum_lengths st data_id acc cs ≡ ok n
    → n ≡ acc + sum (lengths st cs)
unfolding sum_lengths
sum_lengths-sum st data_id acc n [] small e = let same : acc ≡ n = cc e in omega (arith, same)
sum_lengths-sum st data_id acc n (c ∷ cs) small e =
    elim (Bool-cases (data_id == (st c).header.data_id)) [
      | inr other ↦ absurd (cc (rw other at e))
      | inl same ↦
          let len : ℕ = (st c).header.chunk_len in
          let next : add32 acc len ≡ acc + len = omega (arith, small) in
          let more =
            sum_lengths-sum st data_id (add32 acc len) n cs (omega (arith, next, small))
              (rw same at e) in
          omega (arith, more, next)
    ]

len_of : Outcome (Message × Machine) → ℕ
len_of (ok (msg, m)) = msg.len
len_of fault = 0
len_of abort = 0

deliver_chunks-len :
    (data_id : ℕ) (cs : List Ptr) (m m' : Machine) (msg : Message)
    → sum (lengths m.store cs) < 2 ^ 32
    → deliver_chunks data_id cs m ≡ ok (msg, m')
    → msg.len ≡ sum (lengths m.store cs)
unfolding deliver_chunks len_of
deliver_chunks-len data_id [] m m' msg small e = absurd (cc e)
deliver_chunks-len data_id (c ∷ cs) m m' msg small e =
    let (n, summed, e1) = >>=-eq-ok (sum_lengths m.store data_id 0 (c ∷ cs)) _ (msg, m') e in
    elim (Bool-cases ((m.store c).header.data_len == n)) [
      | inr wrong ↦ absurd (cc (rw wrong at e1))
      | inl right ↦ elim (Bool-cases (ltb n (2 ^ 31))) [
        | inr large ↦ absurd (cc (rw large at rw right at e1))
        | inl fits ↦
            let (jba, filled, e2) =
              >>=-eq-ok (set_regions m.store n 0 (c ∷ cs) (λ _. 0)) _ (msg, m')
                (rw fits at rw right at e1) in
            let len : n ≡ msg.len = ap len_of e2 in
            sym len
            ∙ sum_lengths-sum m.store data_id 0 n (c ∷ cs) (omega arith) summed
            ∙ omega arith
      ]
    ]

pub deliver-len :
    (a : VArray) (m m' : Machine) (msg : Message)
    → sum (lengths m.store a.chunks) < 2 ^ 32
    → deliver a m ≡ ok (msg, m')
    → msg.len ≡ sum (lengths m.store a.chunks)
unfolding deliver
deliver-len a m m' msg small e = deliver_chunks-len a.data_id a.chunks m m' msg small e
