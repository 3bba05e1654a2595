-- ===== src/Tests/Histories.antt =====
-- Calls of an empty map and of an empty list, with allocators that have one address.
use rf_gateway.Base.{
  ◌≡◌, ◌≢◌, refl, true, Option, none, some, List, [], ◌∷◌, Returns, Heap, Ptr, null,
}
use rf_gateway.Links.{Cells, values, nil}
use rf_gateway.HashMap.View.{Pair, IsMap}
use rf_gateway.LinkedList.{handle}
use rf_gateway.LinkedList.Valid.{IsList}
use rf_gateway.LinkedList.History
use rf_gateway.LinkedList.History.{perform_list, perform_list-Steps}
use rf_gateway.HashMap.Bulk.Create.{empty_map, empty_map-IsMap}
use rf_gateway.HashMap.Contents.{contents}
use rf_gateway.HashMap.History.{Allocator, Call, Steps, perform_all, perform_all-Steps}

module _ {A : Type 0} where
  -- The address 7 as long as nothing is there.
  abbrev seven_if : Option A → Ptr
  seven_if none = 7
  seven_if (some e) = null

  seven_if-unused : (o : Option A) → seven_if o ≢ null → o ≡ none
  seven_if-unused none got = refl
  seven_if-unused (some e) got = absurd (got refl)

  unused_at : (h : Heap A) → seven_if (h 7) ≢ null → h (seven_if (h 7)) ≡ none
  unused_at h got = rw (at_seven (h 7) got) (seven_if-unused (h 7) got)
    where
      at_seven : (o : Option A) → seven_if o ≢ null → seven_if o ≡ 7
      at_seven none got = refl
      at_seven (some e) got = absurd (got refl)

abbrev one_address : Allocator
one_address = record { entry = λ h. seven_if (h 7); room = λ h. true; unused = unused_at }

abbrev calls : List Call
calls = Call.set 5 44 ∷ Call.get 5 ∷ Call.set 6 45 ∷ Call.remove 5 ∷ Call.contains 5 ∷ []

perform_all-Steps_example :
    Returns
      (λ (rs, m) h.
        (ys : Cells Pair) × IsMap h m ys
        × Steps one_address empty_map (λ a. none) (contents []) calls rs (contents ys))
      (perform_all one_address empty_map calls (λ a. none))
perform_all-Steps_example = perform_all-Steps one_address calls (empty_map-IsMap (λ a. none))

abbrev one_node : History.Allocator
one_node = record { node = λ h. seven_if (h 7); unused = unused_at }

abbrev list_calls : List History.Call
list_calls =
    History.Call.push 5
    ∷ History.Call.peek
    ∷ History.Call.unshift 6
    ∷ History.Call.pop
    ∷ History.Call.unshift 6
    ∷ History.Call.shift
    ∷ History.Call.pop
    ∷ []

perform_list-Steps_example :
    Returns
      (λ (rs, l) h.
        (ys : Cells Ptr) × IsList h l ys
        × History.Steps one_node (handle null null 0) (λ a. none) [] list_calls rs (values ys))
      (perform_list one_node (handle null null 0) list_calls (λ a. none))
perform_list-Steps_example =
    perform_list-Steps one_node list_calls (record { chain = nil; counted = refl })
