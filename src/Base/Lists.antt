-- ===== src/Base/Lists.antt =====
-- Lists measured by native numbers, and lists of addresses with Boolean membership.
use Prim.Native.Nat.{ℕ, zero, suc, ◌+◌, ◌-◌, ◌≤◌, min}
use mathlib.Core.Path.{◌≡◌, refl, ap, ◌∙◌}
use mathlib.Core.Logic.{◌≢◌}
use mathlib.Core.Bool.{Bool, true, false, ◌&&◌, ◌||◌}
use mathlib.Core.List.{List, [], ◌∷◌, ◌++◌}
use native.Mathlib.Omega.{arith}
use spark_rdma_shuffle_engin.Base.Tests.{ltb, leb, ◌==◌, if◌then◌else◌}

module _ {ℓ} {A : Type ℓ} where
  abbrev pub length : List A → ℕ
  length [] = 0
  length (x ∷ xs) = suc (length xs)

  abbrev pub take : ℕ → List A → List A
  take zero xs = []
  take (suc n) [] = []
  take (suc n) (x ∷ xs) = x ∷ take n xs

  abbrev pub drop : ℕ → List A → List A
  drop zero xs = xs
  drop (suc n) [] = []
  drop (suc n) (x ∷ xs) = drop n xs

  pub length-append : (xs ys : List A) → length (xs ++ ys) ≡ length xs + length ys
  length-append [] ys = omega arith
  length-append (x ∷ xs) ys = omega (arith, length-append xs ys)

  pub take-append-drop : (n : ℕ) (xs : List A) → take n xs ++ drop n xs ≡ xs
  take-append-drop zero xs = refl
  take-append-drop (suc n) [] = refl
  take-append-drop (suc n) (x ∷ xs) = rw (take-append-drop n xs)

  pub length-take : (n : ℕ) (xs : List A) → length (take n xs) ≡ min n (length xs)
  length-take zero xs = omega arith
  length-take (suc n) [] = omega arith
  length-take (suc n) (x ∷ xs) = omega (arith, length-take n xs)

  pub length-drop : (n : ℕ) (xs : List A) → length (drop n xs) ≡ length xs - n
  length-drop zero xs = omega arith
  length-drop (suc n) [] = omega arith
  length-drop (suc n) (x ∷ xs) = omega (arith, length-drop n xs)

  pub take-all : (n : ℕ) (xs : List A) → length xs ≤ n → take n xs ≡ xs
  take-all zero [] h = refl
  take-all zero (x ∷ xs) h = absurd (omega arith)
  take-all (suc n) [] h = refl
  take-all (suc n) (x ∷ xs) h = ap (λ (t : List A). x ∷ t) (take-all n xs (omega arith))

  pub drop-all : (n : ℕ) (xs : List A) → length xs ≤ n → drop n xs ≡ []
  drop-all zero [] h = refl
  drop-all zero (x ∷ xs) h = absurd (omega arith)
  drop-all (suc n) [] h = refl
  drop-all (suc n) (x ∷ xs) h = drop-all n xs (omega arith)

  -- A prefix that lies in the first of two lists, and one that reaches into the second.
  pub take-append_le : (n : ℕ) (xs ys : List A) → n ≤ length xs → take n (xs ++ ys) ≡ take n xs
  take-append_le zero xs ys h = refl
  take-append_le (suc n) [] ys h = absurd (omega arith)
  take-append_le (suc n) (x ∷ xs) ys h =
      ap (λ (t : List A). x ∷ t) (take-append_le n xs ys (omega arith))

  pub drop-append_le :
      (n : ℕ) (xs ys : List A) → n ≤ length xs → drop n (xs ++ ys) ≡ drop n xs ++ ys
  drop-append_le zero xs ys h = refl
  drop-append_le (suc n) [] ys h = absurd (omega arith)
  drop-append_le (suc n) (x ∷ xs) ys h = drop-append_le n xs ys (omega arith)

  pub take-append :
      (xs ys : List A) (n : ℕ) → length xs ≤ n → take n (xs ++ ys) ≡ xs ++ take (n - length xs) ys
  take-append [] ys n h = ap (λ (t : ℕ). take t ys) (omega arith)
  take-append (x ∷ xs) ys zero h = absurd (omega arith)
  take-append (x ∷ xs) ys (suc n) h =
      ap (λ (t : List A). x ∷ t)
        (take-append xs ys n (omega arith) ∙ ap (λ (t : ℕ). xs ++ take t ys) (omega arith))

  pub drop-append :
      (xs ys : List A) (n : ℕ) → length xs ≤ n → drop n (xs ++ ys) ≡ drop (n - length xs) ys
  drop-append [] ys n h = ap (λ (t : ℕ). drop t ys) (omega arith)
  drop-append (x ∷ xs) ys zero h = absurd (omega arith)
  drop-append (x ∷ xs) ys (suc n) h =
      drop-append xs ys n (omega arith) ∙ ap (λ (t : ℕ). drop t ys) (omega arith)

-- Addresses.
abbrev pub mem : ℕ → List ℕ → Bool
mem a [] = false
mem a (x ∷ xs) = (a == x) || mem a xs

pub mem-head : (x : ℕ) (xs : List ℕ) → mem x (x ∷ xs) ≡ true
mem-head x xs = ground arith

pub mem-tail : (a x : ℕ) (xs : List ℕ) → mem a xs ≡ true → mem a (x ∷ xs) ≡ true
mem-tail a x xs h = ground arith

pub mem-append : (a : ℕ) (xs ys : List ℕ) → mem a (xs ++ ys) ≡ (mem a xs || mem a ys)
mem-append a [] ys = refl
mem-append a (x ∷ xs) ys = ground (arith, mem-append a xs ys)

pub mem-append_left : (a : ℕ) (xs ys : List ℕ) → mem a xs ≡ true → mem a (xs ++ ys) ≡ true
mem-append_left a xs ys h = ground (arith, mem-append a xs ys)

pub mem-append_right : (a : ℕ) (xs ys : List ℕ) → mem a ys ≡ true → mem a (xs ++ ys) ≡ true
mem-append_right a [] ys h = h
mem-append_right a (x ∷ xs) ys h = mem-tail a x (xs ++ ys) (mem-append_right a xs ys h)

pub not-mem-cons : (a x : ℕ) (xs : List ℕ) → mem a (x ∷ xs) ≡ false → (x ≢ a) × (mem a xs ≡ false)
not-mem-cons a x xs h = ground arith

-- One list tells its members from the others.
pub mem-ne : (a b : ℕ) (xs : List ℕ) → mem a xs ≡ true → mem b xs ≡ false → a ≢ b
mem-ne a b xs h k e = cc (ap (λ (t : ℕ). mem t xs) e)

abbrev pub Distinct : List ℕ → Type 0
Distinct [] = Unit {0}
Distinct (x ∷ xs) = (mem x xs ≡ false) × Distinct xs

pub Distinct-append :
    (xs ys : List ℕ)
    → Distinct xs
    → Distinct ys
    → ((a : ℕ) → mem a xs ≡ true → mem a ys ≡ false)
    → Distinct (xs ++ ys)
Distinct-append [] ys d e apart = e
Distinct-append (x ∷ xs) ys d e apart = (
  ground (arith, mem-append x xs ys, apart x),
  Distinct-append xs ys d.1 e (λ a i. apart a (ground arith)),
)

pub Distinct-apart :
    (xs ys : List ℕ) (a : ℕ) → Distinct (xs ++ ys) → mem a ys ≡ true → mem a xs ≡ false
Distinct-apart [] ys a d i = refl
Distinct-apart (x ∷ xs) ys a d i =
    ground (arith, mem-append x xs ys, mem-ne a x ys i, Distinct-apart xs ys a d.1 i)

pub Distinct-front : (xs ys : List ℕ) → Distinct (xs ++ ys) → Distinct xs
Distinct-front [] ys d = tt
Distinct-front (x ∷ xs) ys d = (ground (arith, d.0, mem-append x xs ys), Distinct-front xs ys d.1)

-- The addresses `p`, `p + 1`, ... of a block of `n` cells.
unfoldable pub range : ℕ → ℕ → List ℕ
range p zero = []
range p (suc n) = p ∷ range (suc p) n

pub length-range : (p n : ℕ) → length (range p n) ≡ n
unfolding range
length-range p zero = refl
length-range p (suc n) = ap suc (length-range (suc p) n)

pub mem-range : (a p n : ℕ) → mem a (range p n) ≡ (leb p a && ltb a (p + n))
unfolding range
mem-range a p zero = ground arith
mem-range a p (suc n) = ground (arith, mem-range a (suc p) n)

pub range-append : (p n : ℕ) (ys : List ℕ) → range p (suc n) ++ ys ≡ range p n ++ (p + n) ∷ ys
unfolding range
range-append p zero ys = ap (λ (t : ℕ). t ∷ ys) (omega arith)
range-append p (suc n) ys =
    ap (λ (t : List ℕ). p ∷ t)
      (range-append (suc p) n ys ∙ ap (λ (t : ℕ). range (suc p) n ++ t ∷ ys) (omega arith))

abbrev pub erase : ℕ → List ℕ → List ℕ
erase a [] = []
erase a (x ∷ xs) = if a == x then xs else x ∷ erase a xs

pub length-erase : (a : ℕ) (xs : List ℕ) → mem a xs ≡ true → length xs ≡ suc (length (erase a xs))
length-erase a [] h = ground arith
length-erase a (x ∷ xs) h = ground (arith, length-erase a xs)

pub mem-erase : (a b : ℕ) (xs : List ℕ) → mem b (erase a xs) ≡ true → mem b xs ≡ true
mem-erase a b [] h = h
mem-erase a b (x ∷ xs) h = ground (arith, mem-erase a b xs)

pub mem-erase_self : (a : ℕ) (xs : List ℕ) → Distinct xs → mem a (erase a xs) ≡ false
mem-erase_self a [] d = refl
mem-erase_self a (x ∷ xs) d = ground (arith, mem-erase_self a xs d.1)

pub Distinct-erase : (a : ℕ) (xs : List ℕ) → Distinct xs → Distinct (erase a xs)
Distinct-erase a [] d = tt
Distinct-erase a (x ∷ xs) d = ground (arith, Distinct-erase a xs d.1, mem-erase a x xs)
