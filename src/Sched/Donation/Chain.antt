-- ===== src/Sched/Donation/Chain.antt =====
-- `priority_donation` of threads/thread.c along the chain of lock holders.
use mathlib.Core.Path.{fun_ext, subst₂}
use pintos_vm.Base.{
  ℕ, zero, suc, ◌≡◌, ◌≢◌, refl, sym, ◌∙◌, subst, inl, inr, Bool, true, false, Option, none, some,
  List, [], ◌∷◌, ◌==◌, arith, if◌then◌else◌, ◌>>=◌, Option-cases, Returns,
}
use pintos_vm.Base.Int.{ℤ, ltb_ℤ}
use pintos_vm.KernelList.Sort.Order.{IsSorted}
use pintos_vm.Sched.{Lock, Kernel, set_priority, priority_of}
use pintos_vm.Sched.Same.{SameSchedule}
use pintos_vm.Sched.Policy.{IsOrdered, higher}
use pintos_vm.Sched.Donation.{donate_from, priority_donation}

-- The holders that a waiting thread depends on, at most `depth` of them; `none` if one of the locks has
-- no holder.
abbrev pub chain : (ℕ → Option ℕ) → (ℕ → Lock) → ℕ → ℕ → Option (List ℕ)
chain waits locks zero t = some []
chain waits locks (suc depth) t = elim (waits t) [
  | none ↦ some []
  | some lock ↦ elim (locks lock).holder [
    | none ↦ none
    | some holder ↦ chain waits locks depth holder >>= λ hs. some (holder ∷ hs)
  ]
]

abbrev pub contains : ℕ → List ℕ → Bool
contains t [] = false
contains t (x ∷ xs) = if x == t then true else contains t xs

-- The threads of the list have the priority `p`, and nothing else differs.
pub record IsDonated (p : ℤ) (hs : List ℕ) (k k' : Kernel) : Type 0 where
  pub at :
      (t : ℕ)
      → k'.threads t
        ≡ (if contains t hs then record (k.threads t) { priority = p } else k.threads t)
  pub schedule : SameSchedule k k'

abbrev pub waits_of : Kernel → ℕ → Option ℕ
waits_of k t = (k.threads t).wait_on_lock

waits-set_priority : (k : Kernel) (h : ℕ) (p : ℤ) → waits_of (set_priority h p k) ≡ waits_of k
waits-set_priority k h p = fun_ext λ t. ground arith

unmoved : (p : ℤ) (k : Kernel) → IsDonated p [] k k
unmoved p k = record {
  at = λ u. refl;
  schedule = record {
    statuses = λ t. refl;
    same_current = refl;
    same_idle = refl;
    same_ready = refl;
    same_sleep = refl;
    same_semas = refl;
    same_locks = refl;
    same_context = refl;
  };
}

IsDonated-step :
    (p : ℤ) (h : ℕ) (hs : List ℕ) (k k' : Kernel)
    → IsDonated p hs (set_priority h p k) k'
    → IsDonated p (h ∷ hs) k k'
IsDonated-step p h hs k k' d = record {
  at = λ t. ground (arith, d.at t);
  schedule = record {
    statuses = λ t. ground (arith, d.schedule.statuses t);
    same_current = d.schedule.same_current;
    same_idle = d.schedule.same_idle;
    same_ready = d.schedule.same_ready;
    same_sleep = d.schedule.same_sleep;
    same_semas = d.schedule.same_semas;
    same_locks = d.schedule.same_locks;
    same_context = d.schedule.same_context;
  };
}

-- One round of the loop, and of the chain.
module _ (depth t : ℕ) (k : Kernel) where
  donate-stop : (k.threads t).wait_on_lock ≡ none → donate_from (suc depth) t k ≡ some k
  unfolding donate_from
  donate-stop n = ground arith

  donate-null :
      (lock : ℕ)
      → (k.threads t).wait_on_lock ≡ some lock
      → (k.locks lock).holder ≡ none
      → donate_from (suc depth) t k ≡ none
  unfolding donate_from
  donate-null lock w n = ground arith

  donate-more :
      (lock h : ℕ)
      → (k.threads t).wait_on_lock ≡ some lock
      → (k.locks lock).holder ≡ some h
      → donate_from (suc depth) t k ≡ donate_from depth h (set_priority h (priority_of k t) k)
  unfolding donate_from
  donate-more lock h w o = ground arith

  chain-stop : waits_of k t ≡ none → chain (waits_of k) k.locks (suc depth) t ≡ some []
  chain-stop n = ground arith

  chain-null :
      (lock : ℕ)
      → waits_of k t ≡ some lock
      → (k.locks lock).holder ≡ none
      → chain (waits_of k) k.locks (suc depth) t ≡ none
  chain-null lock w n = ground arith

  chain-more :
      (lock h : ℕ)
      → waits_of k t ≡ some lock
      → (k.locks lock).holder ≡ some h
      → chain (waits_of k) k.locks (suc depth) t
        ≡ (chain (waits_of k) k.locks depth h >>= λ hs. some (h ∷ hs))
  chain-more lock h w o = ground arith

-- What the chain says of the loop's result.
abbrev pub Donates : ℤ → Kernel → Option (List ℕ) → Option Kernel → Type 0
Donates p k none r = r ≡ none
Donates p k (some hs) r = Returns (IsDonated p hs k) r

Donates-step :
    (p : ℤ) (h : ℕ) (k : Kernel) (c : Option (List ℕ)) (r : Option Kernel)
    → Donates p (set_priority h p k) c r
    → Donates p k (c >>= λ hs. some (h ∷ hs)) r
Donates-step p h k none r d = d
Donates-step p h k (some hs) none d = d
Donates-step p h k (some hs) (some k') d = IsDonated-step p h hs k k' d

donate_from_lem :
    (depth t : ℕ) (k : Kernel)
    → Donates (priority_of k t) k (chain (waits_of k) k.locks depth t) (donate_from depth t k)
donate_from_lem zero t k = unfold donate_from in unmoved (priority_of k t) k
donate_from_lem (suc depth) t k = elim (Option-cases (k.threads t).wait_on_lock) [
  | inl n ↦
      subst₂ (Donates (priority_of k t) k) (sym (chain-stop depth t k n))
        (sym (donate-stop depth t k n)) (unmoved (priority_of k t) k)
  | inr (lock, w) ↦ elim (Option-cases (k.locks lock).holder) [
    | inl n ↦
        subst₂ (Donates (priority_of k t) k) (sym (chain-null depth t k lock w n))
          (sym (donate-null depth t k lock w n)) refl
    | inr (h, o) ↦
        subst₂ (Donates (priority_of k t) k) (sym (chain-more depth t k lock h w o))
          (sym (donate-more depth t k lock h w o))
          (Donates-step (priority_of k t) h k (chain (waits_of k) k.locks depth h) _ (
            onward h (priority_of k t)
              (donate_from_lem depth h (set_priority h (priority_of k t) k))))
  ]
]
  where
    onward :
        (h : ℕ) (p : ℤ)
        → Donates
            (priority_of (set_priority h p k) h)
            (set_priority h p k)
            (chain (waits_of (set_priority h p k)) k.locks depth h)
            (donate_from depth h (set_priority h p k))
        → Donates p
            (set_priority h p k)
            (chain (waits_of k) k.locks depth h)
            (donate_from depth h (set_priority h p k))
    onward h p d =
        subst₂
          (λ q w.
            Donates q (set_priority h p k) (chain w k.locks depth h)
              (donate_from depth h (set_priority h p k)))
          (let e : priority_of (set_priority h p k) h ≡ p = ground arith in e)
          (waits-set_priority k h p) d

-- `priority_donation` follows the current thread's lock to its holder, that thread's lock to its
-- holder, and so on, at most eight times: each holder on the way gets the current thread's
-- priority. Nothing else of a thread changes, and neither do the lists of the scheduler, the
-- semaphores and the locks. It follows a null pointer exactly if one of those locks has no holder.
pub priority_donation_lem :
    (k : Kernel)
    → Donates
        (priority_of k k.current)
        k
        (chain (waits_of k) k.locks 8 k.current)
        (priority_donation k)
unfolding priority_donation
priority_donation_lem k = donate_from_lem 8 k.current k

out_of_order :
    (h a : ℕ) (rest : List ℕ) (f : ℕ → ℤ)
    → IsSorted (higher f) (a ∷ h ∷ rest)
    → ltb_ℤ (f a) (f h) ≡ true
    → ⊥
out_of_order h a rest f s e = cc (s.0.0)

-- Whenever the current thread waits for a lock whose holder waits for none and stands second in
-- the run queue, behind another thread that has a lower priority than the current one, the
-- donation returns and leaves the queue out of order.
pub donation_disorders :
    (k : Kernel) (lock h a : ℕ) (rest : List ℕ)
    → (k.threads k.current).wait_on_lock ≡ some lock
    → (k.locks lock).holder ≡ some h
    → (k.threads h).wait_on_lock ≡ none
    → k.ready_list ≡ a ∷ h ∷ rest
    → a ≢ h
    → ltb_ℤ (priority_of k a) (priority_of k k.current) ≡ true
    → Returns (λ k'. ¬ IsOrdered k') (priority_donation k)
unfolding priority_donation
donation_disorders k lock h a rest w o n q ne lt =
    subst (Returns (λ k'. ¬ IsOrdered k'))
      (sym (
        donate-more 7 k.current k lock h w o
        ∙ donate-stop 6 h (set_priority h (priority_of k k.current) k) (ground arith)))
      λ s.
        out_of_order h a rest (priority_of (set_priority h (priority_of k k.current) k))
          (subst (IsSorted _) q s) (ground arith)
