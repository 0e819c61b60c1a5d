-- ===== src/KernelList/Links.antt =====
-- What it means that the links of lib/kernel/list.c hold a sequence of elements.
use pintos_vm.Base.{
  ℕ, ◌≤◌, ◌≡◌, ◌≢◌, refl, sym, ap, subst, ◌∙◌, none, some, List, [], ◌∷◌, ◌++◌, arith, count,
}
use pintos_vm.KernelList.{Memory, KernelList}

-- From `a` the elements `xs` lead to `b`, and back.
abbrev pub AreLinked : Memory → ℕ → List ℕ → ℕ → Type 0
AreLinked m a [] b = (m.next a ≡ some b) × (m.prev b ≡ some a)
AreLinked m a (x ∷ xs) b = (m.next a ≡ some x) × (m.prev x ≡ some a) × AreLinked m x xs b

-- A list holds the elements: the links lead from its head to its tail and stop there, and no element
-- occurs twice.
pub record IsList (m : Memory) (list : KernelList) (xs : List ℕ) : Type 0 where
  pub links : AreLinked m list.head xs list.tail
  pub starts : m.prev list.head ≡ none
  pub stops : m.next list.tail ≡ none
  pub distinct : (t : ℕ) → count t (list.head ∷ list.tail ∷ xs) ≤ 1

pub links-split :
    (m : Memory) (a : ℕ) (xs : List ℕ) (y : ℕ) (ys : List ℕ) (b : ℕ)
    → AreLinked m a (xs ++ (y ∷ ys)) b
    → AreLinked m a xs y × AreLinked m y ys b
links-split m a [] y ys b (n, p, h) = ((n, p), h)
links-split m a (x ∷ xs) y ys b (n, p, h) =
    let (h₁, h₂) = links-split m x xs y ys b h in ((n, p, h₁), h₂)

pub links-join :
    (m : Memory) (a : ℕ) (xs : List ℕ) (y : ℕ) (ys : List ℕ) (b : ℕ)
    → AreLinked m a xs y
    → AreLinked m y ys b
    → AreLinked m a (xs ++ (y ∷ ys)) b
links-join m a [] y ys b (n, p) h = (n, p, h)
links-join m a (x ∷ xs) y ys b (n, p, g) h = (n, p, links-join m x xs y ys b g h)

-- Links that two memories agree on.
pub links-agree :
    (m m' : Memory) (a : ℕ) (xs : List ℕ) (b : ℕ)
    → ((t : ℕ) → 1 ≤ count t (a ∷ xs) → m'.next t ≡ m.next t)
    → ((t : ℕ) → 1 ≤ count t (xs ++ (b ∷ [])) → m'.prev t ≡ m.prev t)
    → AreLinked m a xs b
    → AreLinked m' a xs b
links-agree m m' a [] b n p (h, k) = (n a (ground arith) ∙ h, p b (ground arith) ∙ k)
links-agree m m' a (x ∷ xs) b n p (h, k, r) = (
  n a (ground arith) ∙ h,
  p x (ground arith) ∙ k,
  links-agree m m' x xs b (λ t o. n t (ground (arith, o))) (λ t o. p t (ground (arith, o))) r,
)

-- The last element before `b`.
abbrev pub last_of : ℕ → List ℕ → ℕ
last_of a [] = a
last_of a (x ∷ xs) = last_of x xs

pub prev-last :
    (m : Memory) (a : ℕ) (xs : List ℕ) (b : ℕ) → AreLinked m a xs b → m.prev b ≡ some (last_of a xs)
prev-last m a [] b (n, p) = p
prev-last m a (x ∷ xs) b (n, p, h) = prev-last m x xs b h

pub count-last : (a : ℕ) (xs : List ℕ) → 1 ≤ count (last_of a xs) (a ∷ xs)
count-last a [] = ground arith
count-last a (x ∷ xs) = ground (arith, count-last x xs)

-- The links lead to `c` in the place of `b`.
pub links-redirect :
    (m m' : Memory) (a : ℕ) (xs : List ℕ) (b c : ℕ)
    → ((t : ℕ) → count t (a ∷ xs) ≤ 1)
    → ((t : ℕ) → 1 ≤ count t (a ∷ xs) → t ≢ last_of a xs → m'.next t ≡ m.next t)
    → ((t : ℕ) → 1 ≤ count t xs → m'.prev t ≡ m.prev t)
    → m'.next (last_of a xs) ≡ some c
    → m'.prev c ≡ some (last_of a xs)
    → AreLinked m a xs b
    → AreLinked m' a xs c
links-redirect m m' a [] b c d n p e f h = (e, f)
links-redirect m m' a (x ∷ xs) b c d n p e f (h, k, r) = (
  n a (ground arith) (λ q.
        let o : 1 ≤ count a (x ∷ xs) =
          subst (λ u. 1 ≤ count u (x ∷ xs)) (sym q) (count-last x xs) in
        ground (arith, d a, o))
      ∙ h,
  p x (ground arith) ∙ k,
  links-redirect m m' x xs b c (λ t. ground (arith, d t)) (λ t o. n t (ground (arith, o)))
      (λ t o. p t (ground (arith, o))) e f r,
)

-- The element behind a position: the first of the rest, or the tail.
abbrev pub first_of : ℕ → List ℕ → ℕ
first_of b [] = b
first_of b (y ∷ ys) = y

-- The links from the first element of the rest on.
abbrev pub Rest : Memory → List ℕ → ℕ → Type 0
Rest m [] b = Unit
Rest m (y ∷ ys) b = AreLinked m y ys b

pub links-cut :
    (m : Memory) (a : ℕ) (xs ys : List ℕ) (b : ℕ)
    → AreLinked m a (xs ++ ys) b
    → AreLinked m a xs (first_of b ys) × Rest m ys b
links-cut m a [] [] b h = (h, tt)
links-cut m a [] (y ∷ ys) b (n, p, h) = ((n, p), h)
links-cut m a (x ∷ xs) ys b (n, p, h) = let (g, r) = links-cut m x xs ys b h in ((n, p, g), r)

pub links_on :
    (m : Memory) (e : ℕ) (ys : List ℕ) (b : ℕ)
    → m.next e ≡ some (first_of b ys)
    → m.prev (first_of b ys) ≡ some e
    → Rest m ys b
    → AreLinked m e ys b
links_on m e [] b n p r = (n, p)
links_on m e (y ∷ ys) b n p r = (n, p, r)

pub links-glue :
    (m : Memory) (a : ℕ) (xs ys : List ℕ) (b : ℕ)
    → AreLinked m a xs (first_of b ys)
    → Rest m ys b
    → AreLinked m a (xs ++ ys) b
links-glue m a [] ys b h r = links_on m a ys b h.0 h.1 r
links-glue m a (x ∷ xs) ys b (n, p, h) r = (n, p, links-glue m x xs ys b h r)

pub Rest-agree :
    (m m' : Memory) (ys : List ℕ) (b : ℕ)
    → ((t : ℕ) → 1 ≤ count t ys → m'.next t ≡ m.next t)
    → ((t : ℕ) → 1 ≤ count t (ys ++ (b ∷ [])) → t ≢ first_of b ys → m'.prev t ≡ m.prev t)
    → ((t : ℕ) → count t (ys ++ (b ∷ [])) ≤ 1)
    → Rest m ys b
    → Rest m' ys b
Rest-agree m m' [] b n p d r = tt
Rest-agree m m' (y ∷ ys) b n p d r =
    links-agree m m' y ys b n (λ t o. p t (ground (arith, o)) (λ q. ground (arith, o, q, d t))) r

-- One number stands in a list, and another does not.
pub differ : (t u : ℕ) (zs : List ℕ) → 1 ≤ count t zs → count u zs ≡ 0 → t ≢ u
differ t u zs h z q = omega (arith, h, z, ap (λ x. count x zs) q)

pub links_off :
    (m : Memory) (e : ℕ) (ys : List ℕ) (b : ℕ)
    → AreLinked m e ys b
    → (m.next e ≡ some (first_of b ys)) × (m.prev (first_of b ys) ≡ some e) × Rest m ys b
links_off m e [] b (n, p) = (n, p, tt)
links_off m e (y ∷ ys) b (n, p, r) = (n, p, r)

pub append-nil : (xs : List ℕ) → xs ++ [] ≡ xs
append-nil [] = refl
append-nil (x ∷ xs) = ap (◌∷◌ x) (append-nil xs)

pub first_in : (b : ℕ) (ys : List ℕ) → 1 ≤ count (first_of b ys) (ys ++ (b ∷ []))
first_in b [] = ground arith
first_in b (y ∷ ys) = ground arith
