-- ===== src/KernelList/Sort/Tests.antt =====
-- Runs of the ordered list operations of lib/kernel/list.c.
use pintos_vm.Base.{ℕ, ◌≡◌, refl, true, List, [], ◌∷◌, arith, ltb, SameItems}
use pintos_vm.KernelList.Sort.{
  is_sorted, find_end_of_run, inplace_merge, second_run, merge_pass, sort_passes, list_sort,
}
use pintos_vm.KernelList.Sort.Order.{IsOrder, IsSorted}
use pintos_vm.KernelList.Sort.Sorted.{list_sort_lem}

ltb-IsOrder : IsOrder ltb
ltb-IsOrder = record { asym = λ a b h. ground arith; trans = λ a b c h k. ground arith }

abbrev mixed : List ℕ
mixed = 5 ∷ 1 ∷ 4 ∷ 1 ∷ 3 ∷ []

sort-mixed : list_sort ltb mixed ≡ 1 ∷ 1 ∷ 3 ∷ 4 ∷ 5 ∷ []
unfolding list_sort sort_passes merge_pass second_run inplace_merge find_end_of_run
sort-mixed = refl

list_sort_lem_example :
    IsSorted ltb (list_sort ltb mixed)
    × SameItems (list_sort ltb mixed) mixed
    × (is_sorted ltb (list_sort ltb mixed) ≡ true)
list_sort_lem_example = list_sort_lem ltb ltb-IsOrder mixed
