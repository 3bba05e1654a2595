-- ===== src/LinkedList.antt =====
-- The functions of list.c over a heap of nodes. A `struct list` lives outside the heap, so a
-- function that updates one returns the new value. What `malloc` returns is an argument, a null
-- pointer where it fails; a loop that allocates takes the list of these pointers.
pub mod Valid
pub mod Back
pub mod Front
pub mod Loops
pub mod Copy
pub mod Iterate
pub mod History
use rf_gateway.Base.{
  ℕ, zero, suc, ◌+◌, ◌-◌, Bool, true, false, Option, none, some, List, [], ◌∷◌, ◌==◌, if◌then◌else◌,
  Ptr, null, Heap, Cmd, out_of_fuel, pure, ◌>>=◌, ◌>>◌, store, load, modify, free,
}
use rf_gateway.Links.{Link, link, Nodes}

-- `struct lnode`; its payload is the `void *` that the list stores.
abbrev pub LNode : Type 0
LNode = Link Ptr

abbrev pub lnode : Ptr → Ptr → Ptr → LNode
lnode = link

-- `struct list`; `length` counts allocated nodes, so that a `size_t` holds it.
pub record Handle : Type 0 where
  pub head : Ptr
  pub tail : Ptr
  pub length : ℕ

abbrev pub handle : Ptr → Ptr → ℕ → Handle
handle h t n = record { head = h; tail = t; length = n }

abbrev pub ListNodes : Type 0
ListNodes = Nodes Ptr

-- `list_create`: `fresh` is the address of the `struct list`.
unfoldable pub create : (fresh : Ptr) → Option Handle
create fresh = if fresh == null then none else some (handle null null 0)

-- The body of `list_push` behind its `malloc` and the initialisation of the node.
append_node : Ptr → Handle → Cmd ListNodes Handle
append_node node l = do
  let head = if l.head == null then node else l.head
  if l.tail == null then pure tt else modify l.tail (λ n. record n { next = node })
  modify node (λ n. record n { prev = l.tail })
  pure (handle head node (l.length + 1))

unfoldable pub push : (fresh : Ptr) → Handle → Ptr → Cmd ListNodes (Bool × Handle)
unfolding append_node
push fresh l item =
    if fresh == null
    then pure (false, l)
    else do store fresh (some (lnode item null null)); l' ← append_node fresh l; pure (true, l')

-- The handle after `list_pop` unlinked its last node, whose `prev` is `before`.
unlink_last : Handle → (before : Ptr) → Cmd ListNodes Handle
unlink_last l before = if l.tail == l.head then pure (handle null null (l.length - 1)) else do
  modify before (λ n. record n { next = null })
  pure (handle l.head before (l.length - 1))

unfoldable pub pop : Handle → Cmd ListNodes (Ptr × Handle)
unfolding unlink_last
pop l = if l.tail == null then pure (null, l) else do
  n ← load l.tail
  l' ← unlink_last l n.prev
  item ← load l.tail
  free l.tail
  pure (item.value, l')

unfoldable pub unshift : (fresh : Ptr) → Handle → Ptr → Cmd ListNodes (Bool × Handle)
unshift fresh l item = if fresh == null then pure (false, l) else do
  store fresh (some (lnode item null l.head))
  if l.head == null then pure tt else modify l.head (λ n. record n { prev = fresh })
  pure (true, handle fresh (if l.tail == null then fresh else l.tail) (l.length + 1))

-- The handle after `list_shift` unlinked its first node, whose `next` is `after`.
unlink_first : Handle → (after : Ptr) → Cmd ListNodes Handle
unlink_first l after =
    if l.tail == l.head
    then pure (handle null null (l.length - 1))
    else do modify after (λ n. record n { prev = null }); pure (handle after l.tail (l.length - 1))

unfoldable pub shift : Handle → Cmd ListNodes (Ptr × Handle)
unfolding unlink_first
shift l = if l.head == null then pure (null, l) else do
  n ← load l.head
  l' ← unlink_first l n.next
  item ← load l.head
  free l.head
  pure (item.value, l')

unfoldable pub first : Handle → Cmd ListNodes Ptr
first l = do n ← load l.head; pure n.value

unfoldable pub empty : Handle → Bool
empty l = l.length == 0

clear_loop : ℕ → Ptr → Cmd ListNodes (Unit {0})
clear_loop zero p = λ _. out_of_fuel
clear_loop (suc k) p = if p == null then pure tt else do n ← load p; free p; clear_loop k n.next

-- One more round than there are nodes is enough for each loop of this file.
unfoldable pub clear : Handle → Cmd ListNodes Handle
unfolding clear_loop
clear l = clear_loop (l.length + 1) l.head >> pure (handle null null 0)

-- `list_destroy`; the `struct list` itself is given back with its nodes.
unfoldable pub destroy : Handle → Cmd ListNodes (Unit {0})
unfolding clear
destroy l = clear l >> pure tt

abbrev pub next_alloc : List Ptr → Ptr
next_alloc [] = null
next_alloc (p ∷ ps) = p

abbrev rest_allocs : List Ptr → List Ptr
rest_allocs [] = []
rest_allocs (p ∷ ps) = ps

-- The loop that `list_concat` and `list_clone` share: a push for each node from `p` on, until one
-- fails.
push_all : ℕ → (allocs : List Ptr) → Handle → (p : Ptr) → Cmd ListNodes (Bool × Handle)
push_all zero allocs l p = λ _. out_of_fuel
push_all (suc k) allocs l p = if p == null then pure (true, l) else do
  n ← load p
  (done, l') ← push (next_alloc allocs) l n.value
  -- `node = node->next` is read again after the push, which may have changed the node.
  n' ← load p
  if done then push_all k (rest_allocs allocs) l' n'.next else pure (false, l')

unfoldable pub concat : (allocs : List Ptr) → (this other : Handle) → Cmd ListNodes (Bool × Handle)
unfolding push_all
concat allocs this other = push_all (other.length + 1) allocs this other.head

-- `list_clone` behind its `list_create`.
clone_into : (allocs : List Ptr) → Handle → Option Handle → Cmd ListNodes (Option Handle)
unfolding push_all destroy
clone_into allocs this none = pure none
clone_into allocs this (some c) = do
  (done, c') ← push_all (this.length + 1) allocs c this.head
  if done then pure (some c') else destroy c' >> pure none

-- `fresh` is for the `struct list` of the clone.
unfoldable pub clone : (fresh : Ptr) (allocs : List Ptr) → Handle → Cmd ListNodes (Option Handle)
unfolding clone_into create
clone fresh allocs this = clone_into allocs this (create fresh)
