-- ===== src/KernelList/Remove.antt =====
-- Removal from the linked lists of lib/kernel/list.c, and their size.
use pintos_vm.Base.{
  ℕ, zero, suc, ◌+◌, ◌≤◌, ◌<◌, ◌≡◌, ◌≢◌, refl, sym, ap, subst, ◌∙◌, true, false, ◌||◌, some, List,
  [], ◌∷◌, ◌++◌, ◌==◌, arith, count, count-append, Returns, Returns-bind, length,
}
use pintos_vm.KernelList.{
  Memory, KernelList, set_prev, set_next, is_interior, is_head, list_remove, list_pop_front,
  list_pop_back, size_from, list_size, list_empty,
}
use pintos_vm.KernelList.Links.{
  AreLinked, IsList, links-redirect, last_of, prev-last, count-last, first_of, differ, links-cut,
  links-glue, links_off, Rest-agree, Rest, append-nil, first_in,
}

abbrev removed : ℕ → ℕ → ℕ → Memory → Memory
removed p n e m = set_prev n (m.prev e) (set_next p (m.next e) m)

remove-eq :
    (p n e : ℕ) (m : Memory)
    → m.prev e ≡ some p
    → m.next e ≡ some n
    → list_remove e m ≡ some (removed p n e m, n)
unfolding list_remove
remove-eq p n e m h k =
    let t : is_interior m e ≡ true = rw (h, k) refl in
    let q : (set_next p (m.next e) m).next e ≡ some n = ground arith in rw (t, h, q) refl

module _ (m : Memory) (list : KernelList) (xs ys : List ℕ) (e : ℕ)
    (v : IsList m list (xs ++ (e ∷ ys))) where
  abbrev after : ℕ
  after = first_of list.tail ys

  abbrev pred : ℕ
  pred = last_of list.head xs

  abbrev m' : Memory
  m' = removed pred after e m

  cut : AreLinked m list.head xs e × AreLinked m e ys list.tail
  cut = links-cut m list.head xs (e ∷ ys) list.tail v.links

  off : (m.next e ≡ some after) × (m.prev after ≡ some e) × Rest m ys list.tail
  off = links_off m e ys list.tail cut.1

  once :
      (t : ℕ) → count t (list.head ∷ xs) + count t (e ∷ []) + count t (ys ++ (list.tail ∷ [])) ≤ 1
  once t =
      ground (arith, v.distinct t, count-append t xs (e ∷ ys), count-append t ys (list.tail ∷ []))

  next-kept : (t : ℕ) → t ≢ pred → m'.next t ≡ m.next t
  next-kept t h = ground arith

  prev-kept : (t : ℕ) → t ≢ after → m'.prev t ≡ m.prev t
  prev-kept t h = ground arith

  next-pred : m'.next pred ≡ some after
  next-pred = rw off.0 (ground arith)

  prev-after : m'.prev after ≡ some pred
  prev-after = rw (prev-last m list.head xs e cut.0) (ground arith)

  not-after : (t : ℕ) → 1 ≤ count t (list.head ∷ xs) → t ≢ after
  not-after t o q =
      differ after t (ys ++ (list.tail ∷ [])) (first_in list.tail ys) (omega (arith, o, once t))
        (sym q)

  not-pred : (t : ℕ) → 1 ≤ count t (ys ++ (list.tail ∷ [])) → t ≢ pred
  not-pred t o q =
      differ pred t (list.head ∷ xs) (count-last list.head xs) (omega (arith, o, once t)) (sym q)

  removed-IsList : IsList m' list (xs ++ ys)
  removed-IsList = record {
    links =
        links-glue m' list.head xs ys list.tail
          (links-redirect m m' list.head xs e after (λ t. omega (arith, once t))
            (λ t o ne. next-kept t ne) (λ t o. prev-kept t (not-after t (ground (arith, o))))
            next-pred prev-after cut.0)
          (Rest-agree m m' ys list.tail
            (λ t o. next-kept t (not-pred t (omega (arith, o, count-append t ys (list.tail ∷ [])))))
            (λ t o ne. prev-kept t ne) (λ t. omega (arith, once t)) off.2);
    starts = prev-kept list.head (not-after list.head (ground arith)) ∙ v.starts;
    stops =
        next-kept list.tail
          (not-pred list.tail (ground (arith, count-append list.tail ys (list.tail ∷ []))))
        ∙ v.stops;
    distinct = λ t. ground (arith, v.distinct t, count-append t xs ys, count-append t xs (e ∷ ys));
  }

-- `list_remove` of an element of a list returns the element (or the tail) that followed, and the list
-- holds the others in their order.
pub list_remove_lem :
    (m : Memory) (list : KernelList) (xs ys : List ℕ) (e : ℕ)
    → IsList m list (xs ++ (e ∷ ys))
    → Returns (λ (m', n). IsList m' list (xs ++ ys) × (n ≡ first_of list.tail ys)) (list_remove e m)
list_remove_lem m list xs ys e v =
    rw
      (remove-eq (last_of list.head xs) (first_of list.tail ys) e m
        (prev-last m list.head xs e (cut m list xs ys e v).0) (off m list xs ys e v).0)
      (removed-IsList m list xs ys e v, refl)

not_empty :
    (m : Memory) (list : KernelList) (x : ℕ) (xs : List ℕ)
    → IsList m list (x ∷ xs)
    → list_empty list m ≡ false
not_empty m list x xs v = rw v.links.0 (ground (arith, v.distinct list.tail))

not_empty-back :
    (m : Memory) (list : KernelList) (xs : List ℕ) (x : ℕ)
    → IsList m list (xs ++ (x ∷ []))
    → list_empty list m ≡ false
not_empty-back m list [] x v = not_empty m list x [] v
not_empty-back m list (y ∷ ys) x v = not_empty m list y (ys ++ (x ∷ [])) v

-- `list_pop_front` of a list with a first element takes it out and returns it.
pub list_pop_front_lem :
    (m : Memory) (list : KernelList) (x : ℕ) (xs : List ℕ)
    → IsList m list (x ∷ xs)
    → Returns (λ (m', front). IsList m' list xs × (front ≡ x)) (list_pop_front list m)
unfolding list_pop_front
list_pop_front_lem m list x xs v =
    rw (not_empty m list x xs v, v.links.0)
      (Returns-bind (λ (m', n). IsList m' list xs × (n ≡ first_of list.tail xs)) _ (list_remove x m)
        _ (list_remove_lem m list [] xs x v) λ (m', n) h. (h.0, refl))

-- `list_pop_back` of a list with a last element takes it out and returns it.
pub list_pop_back_lem :
    (m : Memory) (list : KernelList) (xs : List ℕ) (x : ℕ)
    → IsList m list (xs ++ (x ∷ []))
    → Returns (λ (m', back). IsList m' list xs × (back ≡ x)) (list_pop_back list m)
unfolding list_pop_back
list_pop_back_lem m list xs x v =
    let (g, h) = links-cut m list.head xs (x ∷ []) list.tail v.links in
    rw (not_empty-back m list xs x v, h.1)
      (Returns-bind (λ (m', n). IsList m' list (xs ++ []) × (n ≡ list.tail)) _ (list_remove x m) _
        (list_remove_lem m list xs [] x v)
        λ (m', n) k. (subst (IsList m' list) (append-nil xs) k.0, refl))

size_from_lem :
    (fuel : ℕ) (m : Memory) (a : ℕ) (xs : List ℕ) (b : ℕ)
    → length xs < fuel
    → count b xs ≡ 0
    → AreLinked m a xs b
    → size_from fuel m (first_of b xs) b ≡ some (length xs)
unfolding size_from
size_from_lem zero m a xs b l z h = absurd (omega arith)
size_from_lem (suc fuel) m a [] b l z h = let t : (b == b) ≡ true = ground arith in rw t refl
size_from_lem (suc fuel) m a (x ∷ xs) b l z (n, p, h) =
    let f : (x == b) ≡ false = ground (arith, z) in
    let k = (links_off m x xs b h).0 in
    let t : (is_head m x || is_interior m x) ≡ true = rw (p, k) refl in
    rw (f, t, k, size_from_lem fuel m x xs b (omega (arith, l)) (ground (arith, z)) h)
      (ap some (omega arith))

-- On a list, and with fuel for one round more than it has elements, `list_size` returns the number
-- of its elements.
pub list_size_lem :
    (m : Memory) (list : KernelList) (xs : List ℕ) (fuel : ℕ)
    → IsList m list xs
    → length xs < fuel
    → list_size fuel list m ≡ some (length xs)
unfolding list_size
list_size_lem m list xs fuel v l =
    rw (links_off m list.head xs list.tail v.links).0
      (size_from_lem fuel m list.head xs list.tail l (ground (arith, v.distinct list.tail)) v.links)
