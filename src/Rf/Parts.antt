-- ===== src/Rf/Parts.antt =====
-- A command on one part of the state of rf.c leaves the others.
use rf_gateway.Base.{Run, Cmd, and_then, Returns, returns}
use rf_gateway.HashMap.{Entries}
use rf_gateway.LinkedList.{ListNodes}
use rf_gateway.Rf.{Rf, in_entries_result, in_nodes_result}

pub in_entries-bind :
    {A B : Type 0} {P : A → Entries → Type 0} {Q : B → Rf → Type 0} (w : Rf) {r : Run Entries A}
    (k : A → Cmd Rf B)
    → Returns P r
    → ((a : A) (g : Entries) → P a g → Returns Q (k a (record w { entries = g })))
    → Returns Q (and_then (in_entries_result w r) k)
unfolding in_entries_result
in_entries-bind w k (returns p) next = next _ _ p

pub in_nodes-bind :
    {A B : Type 0} {P : A → ListNodes → Type 0} {Q : B → Rf → Type 0} (w : Rf) {r : Run ListNodes A}
    (k : A → Cmd Rf B)
    → Returns P r
    → ((a : A) (g : ListNodes) → P a g → Returns Q (k a (record w { nodes = g })))
    → Returns Q (and_then (in_nodes_result w r) k)
unfolding in_nodes_result
in_nodes-bind w k (returns p) next = next _ _ p
