-- ===== src/LinkedList/Valid.antt =====
-- What it means that a `struct list` stands in the heap of nodes.
use rf_gateway.Base.{◌≡◌, ◌≢◌, none, length, Ptr, null}
use rf_gateway.Links.{Cells, Seg}
use rf_gateway.LinkedList.{Handle, ListNodes}

-- A `struct list` with its nodes: linked both ways, ended by null pointers, and counted.
pub record IsList (h : ListNodes) (l : Handle) (xs : Cells Ptr) : Type 0 where
  pub chain : Seg h l.tail null null l.head xs
  pub counted : l.length ≡ length xs

-- An address that `malloc` may return: a node that is not in use.
pub record IsFresh (h : ListNodes) (p : Ptr) : Type 0 where
  pub ne_null : p ≢ null
  pub unused : h p ≡ none
