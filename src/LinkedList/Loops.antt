-- ===== src/LinkedList/Loops.antt =====
-- The loops of list.c: `list_clear`, `list_concat` and `list_clone`.
use rf_gateway.Base.{
  ℕ, zero, suc, ◌+◌, ◌<◌, ◌≡◌, refl, ◌≢◌, Bool, true, false, none, List, [], ◌∷◌, arith, length,
  if◌then◌else◌, ◌==◌, Ptr, null, Returns, returns, Returns-bind, Returns-mono, Points-not_null,
  load-ok, free-ok, write,
}
use rf_gateway.LinkedList.{Handle, ListNodes, clear_loop, clear, destroy}
use rf_gateway.Links
use rf_gateway.LinkedList.Valid.{IsList}
use rf_gateway.Links.{Cells, values, has, has-append, ◌∈◌, ◌∉◌, SameOutside, Seg, nil, cons}

-- `g` is `h` less the nodes of `xs`.
abbrev pub Without : Cells Ptr → ListNodes → ListNodes → Type 0
Without xs h g = (a : Ptr) → g a ≡ (if has a xs then none else h a)

clear_loop-Without :
    (k : ℕ) {h : ListNodes} {last before p : Ptr} {xs : Cells Ptr}
    → Seg h last null before p xs
    → length xs < k
    → Returns (λ _. Without xs h) (clear_loop k p h)
unfolding clear_loop
clear_loop-Without zero s fuel = absurd (omega arith)
clear_loop-Without (suc k) {h} nil fuel = returns {s = h} λ a. refl
clear_loop-Without (suc k) (cons {p} e out s) fuel =
    rw (Points-not_null e, load-ok e, free-ok e)
      (Returns-mono (clear_loop-Without k (Links.frame-write p none s out) (omega arith))
        λ _ g gone a. unfold write in ground (arith, gone a))

-- `list_clear` frees exactly the nodes of the list and leaves it empty.
pub clear-Without :
    {h : ListNodes} {l : Handle} {xs : Cells Ptr}
    → IsList h l xs
    → Returns (λ l' g. IsList g l' [] × Without xs h g) (clear l h)
unfolding clear
clear-Without {l} is =
    Returns-bind (clear_loop-Without (l.length + 1) is.chain (omega (arith, is.counted)))
      λ _ g gone. returns (record { chain = nil; counted = refl }, gone)

-- `list_destroy` frees exactly the nodes of the list.
pub destroy-Without :
    {h : ListNodes} {l : Handle} {xs : Cells Ptr}
    → IsList h l xs
    → Returns (λ _ g. Without xs h g) (destroy l h)
unfolding destroy
destroy-Without is = Returns-bind (clear-Without is) λ l' g (_, gone). returns gone

-- The nodes that a run of pushes makes: one for each value, until an allocation fails.
abbrev pub copied : List Ptr → List Ptr → Cells Ptr
copied allocs [] = []
copied [] (v ∷ vs) = []
copied (a ∷ allocs) (v ∷ vs) = if a == null then [] else (a, v) ∷ copied allocs vs

-- There was an address for every value.
abbrev pub all_copied : List Ptr → List Ptr → Bool
all_copied allocs [] = true
all_copied [] (v ∷ vs) = false
all_copied (a ∷ allocs) (v ∷ vs) = if a == null then false else all_copied allocs vs

abbrev pub among : Ptr → List Ptr → Bool
among a [] = false
among a (b ∷ bs) = if a == b then true else among a bs

-- What `malloc` promises of its results, in order: null, or an address not in use by then.
abbrev pub AllFresh : ListNodes → List Ptr → Type 0
AllFresh h [] = Unit {0}
AllFresh h (a ∷ allocs) = (a ≢ null → (h a ≡ none) × (among a allocs ≡ false)) × AllFresh h allocs

abbrev pub Apart : Cells Ptr → Cells Ptr → Type 0
Apart zs xs = (a : Ptr) → a ∈ zs → a ∉ xs

pub AllFresh-same :
    {h g : ListNodes} (a : Ptr) (allocs : List Ptr)
    → ((b : Ptr) → b ≢ a → h b ≡ none → g b ≡ none)
    → among a allocs ≡ false
    → AllFresh h allocs
    → AllFresh g allocs
AllFresh-same a [] same out f = tt
AllFresh-same {h} {g} a (b ∷ bs) same out (first, rest) =
    let ne : b ≢ a = ground arith in
    (λ nz. (same b ne (first nz).0, (first nz).1), AllFresh-same a bs same (ground arith) rest)
