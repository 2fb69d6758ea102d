-- ===== src/Glib.antt =====
-- The queue of GLib that src/rdma_transport.c keeps its messages in: the operations that the code
-- calls, and what GLib's documentation says of them. The library itself is not part of the code.
use spark_rdma_shuffle_engin.Base.{
  false, ◌≡◌, Bool, List, [], ◌∷◌, ◌++◌, Option, none, some, if◌then◌else◌,
}

abbrev pub first {ℓ} : {A : Type ℓ} → List A → Option A
first [] = none
first (x ∷ xs) = some x

abbrev pub rest {ℓ} : {A : Type ℓ} → List A → List A
rest [] = []
rest (x ∷ xs) = xs

-- The first element that passes a test.
abbrev pub first_such {ℓ} : {A : Type ℓ} → (A → Bool) → List A → Option A
first_such p [] = none
first_such p (x ∷ xs) = if p x then some x else first_such p xs

pub record GQueue (A : Type 0) : Type 1 where
  pub Queue : Type 0
  pub to_list : Queue → List A
  pub empty : Queue
  pub push_tail : Queue → A → Queue
  pub peek_head : Queue → Option A
  pub pop_head : Queue → Queue
  pub find_custom : Queue → (A → Bool) → Option A
  pub to_list-empty : to_list empty ≡ []
  pub to_list-push_tail : (q : Queue) (a : A) → to_list (push_tail q a) ≡ to_list q ++ a ∷ []
  pub peek_head-first : (q : Queue) → peek_head q ≡ first (to_list q)
  pub to_list-pop_head : (q : Queue) → to_list (pop_head q) ≡ rest (to_list q)
  pub find_custom-first_such :
      (q : Queue) (p : A → Bool) → find_custom q p ≡ first_such p (to_list q)

-- A hash table; `equal` says which keys it takes for one: those of one hash for which the function
-- that compares keys returns true.
pub record GHashTable (K V : Type 0) : Type 1 where
  pub Table : Type 0
  pub equal : K → K → Bool
  pub lookup : Table → K → Option V
  pub insert : Table → K → V → Table
  pub lookup-insert : (t : Table) (k : K) (v : V) → lookup (insert t k v) k ≡ some v
  pub lookup-insert_other :
      (t : Table) (k k' : K) (v : V) → equal k k' ≡ false → lookup (insert t k v) k' ≡ lookup t k'
