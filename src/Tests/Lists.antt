-- ===== src/Tests/Lists.antt =====
-- The functions of list.c on a list of two nodes.
use rf_gateway.Base.{ok, ◌≡◌, refl, true, none, some, [], ◌∷◌, arith, Ptr, null, Returns, write}
use rf_gateway.Links.{Cells, SameOutside, nil, cons}
use rf_gateway.LinkedList.{Handle, handle, lnode, ListNodes, push, concat, clone}
use rf_gateway.LinkedList.Valid.{IsList, IsFresh}
use rf_gateway.LinkedList.Back.{push-snoc}
use rf_gateway.LinkedList.Loops.{AllFresh, Apart}
use rf_gateway.Iterator.{Iterator, walk}
use rf_gateway.LinkedList.Iterate.{iterator, next_node, walk-iterator}
use rf_gateway.LinkedList.Copy.{concat-Copied, Copied, clone-Cloned, Cloned}

-- The nodes 1 and 2 hold 10 and 20, and the node 3, of another list, holds 30.
abbrev nodes : ListNodes
nodes =
    write (write (write (λ a. none) 1 (some (lnode 10 null 2))) 2 (some (lnode 20 1 null))) 3
      (some (lnode 30 null null))

abbrev two : Handle
two = handle 1 2 2

abbrev cells : Cells Ptr
cells = (1, 10) ∷ (2, 20) ∷ []

abbrev one : Handle
one = handle 3 3 1

two-IsList : IsList nodes two cells
unfolding write
two-IsList = record {
  chain =
      cons (record { ne_null = omega arith; holds = refl }) refl
        (cons (record { ne_null = omega arith; holds = refl }) refl nil);
  counted = refl;
}

one-IsList : IsList nodes one ((3, 30) ∷ [])
unfolding write
one-IsList = record {
  chain = cons (record { ne_null = omega arith; holds = refl }) refl nil;
  counted = refl;
}

five-IsFresh : IsFresh nodes 5
unfolding write
five-IsFresh = record { ne_null = omega arith; unused = refl }

fresh_ones : AllFresh nodes (5 ∷ 6 ∷ 0 ∷ [])
unfolding write
fresh_ones = (λ nz. (refl, refl), ((λ nz. (refl, refl)), ((λ nz. (refl, refl)), tt)))

apart : Apart ((3, 30) ∷ []) cells
apart a i = ground arith

push-snoc_example :
    Returns
      (λ (done, l') g.
        (done ≡ true)
        × IsList g l' ((1, 10) ∷ (2, 20) ∷ (5, 50) ∷ [])
        × SameOutside ((1, 10) ∷ (2, 20) ∷ (5, 50) ∷ []) nodes g)
      (push 5 two 50 nodes)
push-snoc_example = push-snoc 5 50 five-IsFresh two-IsList

concat-Copied_example :
    Returns
      (λ r g. Copied nodes cells (5 ∷ 6 ∷ 0 ∷ []) (30 ∷ []) r g × IsList g one ((3, 30) ∷ []))
      (concat (5 ∷ 6 ∷ 0 ∷ []) two one nodes)
concat-Copied_example = concat-Copied (5 ∷ 6 ∷ 0 ∷ []) two-IsList one-IsList apart fresh_ones

-- The third allocation would fail; two are enough.
clone-Cloned_example :
    Returns (Cloned nodes two cells 7 (5 ∷ 6 ∷ 0 ∷ [])) (clone 7 (5 ∷ 6 ∷ 0 ∷ []) two nodes)
clone-Cloned_example = clone-Cloned 7 (5 ∷ 6 ∷ 0 ∷ []) two-IsList fresh_ones

walk-iterator_example :
    (it : Iterator) × (iterator 8 two ≡ some it)
    × (walk next_node 3 it nodes ≡ ok ((0, 10) ∷ (1, 20) ∷ []) nodes)
walk-iterator_example = walk-iterator 8 (omega arith) two-IsList
