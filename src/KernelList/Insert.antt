-- ===== src/KernelList/Insert.antt =====
-- Insertion into the linked lists of lib/kernel/list.c.
use pintos_vm.Base.{
  ℕ, ◌+◌, ◌≤◌, ◌≡◌, ◌≢◌, refl, sym, subst, ◌∙◌, true, ◌||◌, some, List, [], ◌∷◌, ◌++◌, arith, count,
  count-append, Returns,
}
use pintos_vm.KernelList.{
  Memory, KernelList, set_prev, set_next, is_interior, is_tail, list_insert, list_push_front,
  list_push_back, list_init,
}
use pintos_vm.KernelList.Links.{
  AreLinked, IsList, links-redirect, last_of, prev-last, count-last, first_of, differ, links-cut,
  links-glue, links_on, links_off, Rest-agree, Rest, append-nil,
}

abbrev inserted : ℕ → ℕ → ℕ → Memory → Memory
inserted p before e m =
    set_prev before (some e)
      (set_next p (some e) (set_next e (some before) (set_prev e (m.prev before) m)))

insert-eq :
    (p before e : ℕ) (m : Memory)
    → m.prev before ≡ some p
    → list_insert before e m ≡ some (inserted p before e m)
unfolding list_insert
insert-eq p before e m h =
    let q : (set_next e (some before) (set_prev e (m.prev before) m)).prev before ≡ some p =
      ground arith in
    let t : (is_interior m before || is_tail m before) ≡ true = ground arith in rw (t, q) refl

module _ (m : Memory) (p before e : ℕ) where
  next-kept : (t : ℕ) → t ≢ p → t ≢ e → (inserted p before e m).next t ≡ m.next t
  next-kept t h k = ground arith

  prev-kept : (t : ℕ) → t ≢ before → t ≢ e → (inserted p before e m).prev t ≡ m.prev t
  prev-kept t h k = ground arith

  next-p : (inserted p before e m).next p ≡ some e
  next-p = ground arith

  prev-before : (inserted p before e m).prev before ≡ some e
  prev-before = ground arith

  next-e : e ≢ p → (inserted p before e m).next e ≡ some before
  next-e h = ground arith

  prev-e : e ≢ before → m.prev before ≡ some p → (inserted p before e m).prev e ≡ some p
  prev-e h k = ground arith

module _ (m : Memory) (list : KernelList) (xs ys : List ℕ) (e : ℕ) (v : IsList m list (xs ++ ys))
    (new : count e (list.head ∷ list.tail ∷ (xs ++ ys)) ≡ 0) where
  abbrev before : ℕ
  before = first_of list.tail ys

  abbrev pred : ℕ
  pred = last_of list.head xs

  abbrev m' : Memory
  m' = inserted pred before e m

  once : (t : ℕ) → count t (list.head ∷ xs) + count t (ys ++ (list.tail ∷ [])) ≤ 1
  once t = ground (arith, v.distinct t, count-append t xs ys, count-append t ys (list.tail ∷ []))

  fresh : count e (list.head ∷ xs) + count e (ys ++ (list.tail ∷ [])) ≡ 0
  fresh = ground (arith, new, count-append e xs ys, count-append e ys (list.tail ∷ []))

  before_in : (zs : List ℕ) → 1 ≤ count (first_of list.tail zs) (zs ++ (list.tail ∷ []))
  before_in [] = ground arith
  before_in (z ∷ zs) = ground arith

  pred_in : 1 ≤ count pred (list.head ∷ xs)
  pred_in = count-last list.head xs

  links-before : AreLinked m list.head xs before × Rest m ys list.tail
  links-before = links-cut m list.head xs ys list.tail v.links

  links-after : AreLinked m' list.head (xs ++ (e ∷ ys)) list.tail
  links-after =
      links-glue m' list.head xs (e ∷ ys) list.tail
        (links-redirect m m' list.head xs before e (λ t. omega (arith, once t))
          (λ t o ne.
            next-kept m pred before e t ne (differ t e (list.head ∷ xs) o (omega (arith, fresh))))
          (λ t o.
            prev-kept m pred before e t
              (λ q.
                differ before t (ys ++ (list.tail ∷ [])) (before_in ys) (ground (arith, o, once t))
                  (sym q))
              (differ t e xs o (ground (arith, fresh))))
          (next-p m pred before e)
          (prev-e m pred before e
            (λ q.
              differ before e (ys ++ (list.tail ∷ [])) (before_in ys) (omega (arith, fresh))
                (sym q))
            (prev-last m list.head xs before links-before.0))
          links-before.0)
        (links_on m' e ys list.tail
          (next-e m pred before e
            (λ q. differ pred e (list.head ∷ xs) pred_in (omega (arith, fresh)) (sym q)))
          (prev-before m pred before e)
          (Rest-agree m m' ys list.tail
            (λ t o.
              next-kept m pred before e t
                (differ t pred ys o
                  (omega (arith, once pred, pred_in, count-append pred ys (list.tail ∷ []))))
                (differ t e ys o (omega (arith, fresh, count-append e ys (list.tail ∷ [])))))
            (λ t o ne.
              prev-kept m pred before e t ne
                (differ t e (ys ++ (list.tail ∷ [])) o (omega (arith, fresh))))
            (λ t. omega (arith, once t)) links-before.1))

  inserted-IsList : IsList m' list (xs ++ (e ∷ ys))
  inserted-IsList = record {
    links = links-after;
    starts =
        prev-kept m pred before e list.head
          (λ q.
            differ before list.head (ys ++ (list.tail ∷ [])) (before_in ys)
              (ground (arith, once list.head)) (sym q))
          (differ list.head e (list.head ∷ xs) (ground arith) (omega (arith, fresh)))
        ∙ v.starts;
    stops =
        next-kept m pred before e list.tail
          (λ q.
            differ pred list.tail (list.head ∷ xs) pred_in
              (omega (
                arith,
                once list.tail,
                before_in [],
                count-append list.tail ys (list.tail ∷ []),
                tail_in,
              ))
              (sym q))
          (differ list.tail e (list.tail ∷ []) (ground arith)
            (omega (arith, fresh, count-append e ys (list.tail ∷ []))))
        ∙ v.stops;
    distinct =
        λ t. ground (arith, v.distinct t, new, count-append t xs ys, count-append t xs (e ∷ ys));
  }
    where
      tail_in : 1 ≤ count list.tail (list.tail ∷ [])
      tail_in = ground arith

-- `list_insert` of an element that is in no place of the list, in front of the element (or the tail)
-- that follows `xs`, returns, and puts it between `xs` and `ys`.
pub list_insert_lem :
    (m : Memory) (list : KernelList) (xs ys : List ℕ) (e : ℕ)
    → IsList m list (xs ++ ys)
    → count e (list.head ∷ list.tail ∷ (xs ++ ys)) ≡ 0
    → Returns (λ m'. IsList m' list (xs ++ (e ∷ ys))) (list_insert (first_of list.tail ys) e m)
list_insert_lem m list xs ys e v new =
    rw
      (insert-eq (last_of list.head xs) (first_of list.tail ys) e m
        (prev-last m list.head xs _ (links-cut m list.head xs ys list.tail v.links).0))
      (inserted-IsList m list xs ys e v new)

-- `list_init` makes an empty list of two different elements.
pub list_init_lem :
    (m : Memory) (list : KernelList) → list.head ≢ list.tail → IsList (list_init list m) list []
unfolding list_init
list_init_lem m list ne = record {
  links = (ground (arith, ne), ground (arith, ne));
  starts = ground (arith, ne);
  stops = ground (arith, ne);
  distinct = λ t. ground (arith, ne);
}

-- `list_push_front` puts a new element in front of all others, and `list_push_back` behind them.
pub push_lem :
    (m : Memory) (list : KernelList) (xs : List ℕ) (e : ℕ)
    → IsList m list xs
    → count e (list.head ∷ list.tail ∷ xs) ≡ 0
    → Returns (λ m'. IsList m' list (e ∷ xs)) (list_push_front list e m)
      × Returns (λ m'. IsList m' list (xs ++ (e ∷ []))) (list_push_back list e m)
unfolding list_push_front list_push_back
push_lem m list xs e v new = (
  rw (links_off m list.head xs list.tail v.links).0 (list_insert_lem m list [] xs e v new),
  list_insert_lem m list xs [] e (subst (IsList m list) (sym (append-nil xs)) v)
      (subst (λ zs. count e (list.head ∷ list.tail ∷ zs) ≡ 0) (sym (append-nil xs)) new),
)
