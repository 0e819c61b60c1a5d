-- ===== src/KernelList/Tests.antt =====
-- Runs of the linked lists of lib/kernel/list.c.
use pintos_vm.Base.{◌≡◌, refl, none, some, [], ◌∷◌, ◌==◌, if◌then◌else◌, arith, Returns, ◌>>=◌}
use pintos_vm.KernelList.{
  Memory, KernelList, list_insert, list_push_back, list_remove, list_size, size_from,
}
use pintos_vm.KernelList.Links.{IsList}
use pintos_vm.KernelList.Insert.{list_insert_lem}
use pintos_vm.KernelList.Remove.{list_remove_lem}

-- The head is 1, the tail is 2, and the elements 5 and 6 stand between them.
abbrev list : KernelList
list = record { head = 1; tail = 2 }

abbrev memory : Memory
memory = record {
  prev = λ a.
      if a == 5 then some 1 else (if a == 6 then some 5 else (if a == 2 then some 6 else none));
  next = λ a.
      if a == 1 then some 5 else (if a == 5 then some 6 else (if a == 6 then some 2 else none));
}

memory-IsList : IsList memory list (5 ∷ 6 ∷ [])
memory-IsList = record {
  links = (refl, refl, (refl, refl, (refl, refl)));
  starts = refl;
  stops = refl;
  distinct = λ t. ground arith;
}

size-pushed : (list_push_back list 9 memory >>= λ m. list_size 8 list m) ≡ some 3
unfolding list_push_back list_insert list_size size_from
size-pushed = refl

list_insert_lem_example : Returns (λ m'. IsList m' list (5 ∷ 9 ∷ 6 ∷ [])) (list_insert 6 9 memory)
list_insert_lem_example = list_insert_lem memory list (5 ∷ []) (6 ∷ []) 9 memory-IsList refl

list_remove_lem_example :
    Returns (λ (m', n). IsList m' list (6 ∷ []) × (n ≡ 6)) (list_remove 5 memory)
list_remove_lem_example = list_remove_lem memory list [] (6 ∷ []) 5 memory-IsList
