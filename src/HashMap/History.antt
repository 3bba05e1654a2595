-- ===== src/HashMap/History.antt =====
-- Runs of several calls of hashmap.c against the abstract map.
use rf_gateway.Base.{
  ℕ, ◌≡◌, ◌≢◌, refl, sym, ap, ◌∙◌, Bool, Bool-cases, inl, inr, none, some, List, [], ◌∷◌, ◌++◌,
  ◌==◌, ==_iff, Cmd, pure, ◌>>=◌, and_then, Returns, returns, Returns-bind, Returns-run, ok, true,
  arith, Ptr, null,
}
use rf_gateway.Links.{Cells}
use rf_gateway.Links.Split.{less}
use rf_gateway.HashMap
use rf_gateway.HashMap.{Entries, HashMap}
use rf_gateway.HashMap.Bulk
use rf_gateway.HashMap.Bulk.Clear.{clear-IsMap}
use rf_gateway.HashMap.View.{Pair, IsMap, value_of, holds, addr_of}
use rf_gateway.HashMap.Lookup.{get-value_of, contains-holds}
use rf_gateway.HashMap.Assign.{assign}
use rf_gateway.HashMap.Set.{Added, set-SetDone}
use rf_gateway.HashMap.Removal.Fewer.{Seg-Distinct}
use rf_gateway.HashMap.Removal.Found.{remove-Removed}
use rf_gateway.HashMap.Contents.{
  Contents, nothing, update, or_null, is_some, contents, or_null-contents, is_some-contents,
  contents-assign, contents-snoc, contents-less, update-absent,
}

-- What the allocator answers, for each state of the memory: the address of a new entry, and whether
-- there is room for a bucket array. An address that it gives is unused.
pub record Allocator : Type 0 where
  pub entry : Entries → Ptr
  pub room : Entries → Bool
  pub unused : (h : Entries) → entry h ≢ null → h (entry h) ≡ none

pub data Call : Type 0 where
  get contains remove : ℕ → Call
  set : ℕ → Ptr → Call
  clear : Call

pub data Answer : Type 0 where
  address : Ptr → Answer
  truth : Bool → Answer
  done : Answer

module _ (a : Allocator) where
  unfoldable pub perform : HashMap → Call → Cmd Entries (Answer × HashMap)
  perform m (get key) = do v ← HashMap.get m key; pure (address v, m)
  perform m (contains key) = do b ← HashMap.contains m key; pure (truth b, m)
  perform m (remove key) = do (v, m') ← HashMap.remove m key; pure (address v, m')
  perform m (set key value) = λ h.
      and_then (HashMap.set (a.entry h) (a.room h) m key value h)
        (λ (old, errno, m'). pure (address old, m'))
  perform m clear = do m' ← HashMap.Bulk.clear m; pure (done, m')

  unfoldable pub perform_all : HashMap → List Call → Cmd Entries (List Answer × HashMap)
  unfolding perform
  perform_all m [] = pure ([], m)
  perform_all m (c ∷ cs) = do
    (r, m') ← perform m c
    (rs, m'') ← perform_all m' cs
    pure (r ∷ rs, m'')

  -- One call on the abstract map, where `fresh` is the address that the allocator has for an entry.
  pub data Step (fresh : Ptr) : Contents → Call → Answer → Contents → Type 0 where
    got :
        (f : Contents) (key : ℕ) {v : Ptr}
        → v ≡ or_null (f key)
        → Step fresh f (get key) (address v) f
    asked :
        (f : Contents) (key : ℕ) {b : Bool}
        → b ≡ is_some (f key)
        → Step fresh f (contains key) (truth b) f
    replaced :
        (f : Contents) (key : ℕ) (value : Ptr) {old : Ptr} {g : Contents}
        → is_some (f key) ≡ true
        → old ≡ or_null (f key)
        → g ≡ update f key (some value)
        → Step fresh f (set key value) (address old) g
    stored :
        (f : Contents) (key : ℕ) (value : Ptr) {old : Ptr} {g : Contents}
        → fresh ≢ null
        → f key ≡ none
        → old ≡ null
        → g ≡ update f key (some value)
        → Step fresh f (set key value) (address old) g
    refused :
        (f : Contents) (key : ℕ) (value : Ptr) {old : Ptr}
        → fresh ≡ null
        → f key ≡ none
        → old ≡ null
        → Step fresh f (set key value) (address old) f
    removed :
        (f : Contents) (key : ℕ) {v : Ptr} {g : Contents}
        → v ≡ or_null (f key)
        → g ≡ update f key none
        → Step fresh f (remove key) (address v) g
    cleared : (f : Contents) → Step fresh f clear done nothing

  -- The calls from a map and its heap on, each beside its abstract step, with the address that the
  -- allocator has in the very state of the call.
  pub data Steps : HashMap → Entries → Contents → List Call → List Answer → Contents → Type 0 where
    here : {m : HashMap} {h : Entries} {f : Contents} → Steps m h f [] [] f
    next :
        {m m' : HashMap} {h h' : Entries} {f g k : Contents} {c : Call} {cs : List Call}
        {r : Answer} {rs : List Answer}
        → perform m c h ≡ ok (r, m') h'
        → Step (a.entry h) f c r g
        → Steps m' h' g cs rs k
        → Steps m h f (c ∷ cs) (r ∷ rs) k

  -- After a call, a well-formed map whose contents are those of the abstract step.
  abbrev Follows : Ptr → Cells Pair → Call → Answer × HashMap → Entries → Type 0
  Follows fresh xs c (r, m) h =
      (ys : Cells Pair) × IsMap h m ys × Step fresh (contents xs) c r (contents ys)

  module _ {h : Entries} {m : HashMap} {xs : Cells Pair} (is : IsMap h m xs) where
    set-Follows :
        (key : ℕ) (value : Ptr)
        → Returns (Follows (a.entry h) xs (set key value)) (perform m (set key value) h)
    unfolding perform
    set-Follows key value =
        Returns-bind (set-SetDone h m key value is (a.entry h) (a.room h) (a.unused h))
          λ (old, errno, m') g d. elim (Bool-cases (holds key xs)) [
            | inl hit ↦
                let (was, _, same, is') : (old ≡ value_of key xs)
                    × (errno ≡ HashMap.errno_clear)
                    × (m' ≡ m)
                    × IsMap g m (assign key value xs) =
                  rw hit at d in
                returns (
                  assign key value xs,
                  rw same is',
                  replaced (contents xs) key value (rw hit refl)
                      (was ∙ sym (or_null-contents xs key)) (contents-assign xs key value hit),
                )
            | inr miss ↦ elim (Bool-cases (a.entry h == null)) [
              | inl failed ↦
                  let (e, e') : ((old, errno, m') ≡ (null, HashMap.enomem, m)) × (g ≡ h) =
                    rw (miss, failed) at d in
                  returns (
                    xs,
                    rw (ap (λ r. r.2) e, e') is,
                    refused (contents xs) key value ((==_iff (a.entry h) null).0 failed)
                        (rw miss refl) (ap (λ r. r.0) e),
                  )
              | inr fresh ↦
                  let added : Added h m xs (a.entry h) (a.room h) key value (old, errno, m') g =
                    rw (miss, fresh) at d in
                  returns (
                    xs ++ (a.entry h, (key, value)) ∷ [],
                    added.map,
                    stored (contents xs) key value (ground arith) (rw miss refl) added.old
                        (contents-snoc xs key value (a.entry h) miss),
                  )
            ]
          ]

    remove-Follows :
        (key : ℕ) → Returns (Follows (a.entry h) xs (remove key)) (perform m (remove key) h)
    unfolding perform
    remove-Follows key = Returns-bind (remove-Removed is key) λ (v, m') g d.
        elim (Bool-cases (holds key xs)) [
          | inl hit ↦
              let (old, is', _) : (v ≡ value_of key xs)
                  × IsMap g m' (less (addr_of key xs) xs)
                  × (g (addr_of key xs) ≡ none) =
                rw hit at d in
              returns (
                less (addr_of key xs) xs,
                is',
                removed (contents xs) key (old ∙ sym (or_null-contents xs key))
                    (contents-less key xs (Seg-Distinct is.order) is.keys hit),
              )
          | inr miss ↦
              let (e, e') : ((v, m') ≡ (null, m)) × (g ≡ h) = rw miss at d in
              returns (
                xs,
                rw (ap (λ r. r.1) e, e') is,
                removed (contents xs) key (ap (λ r. r.0) e ∙ rw miss refl)
                    (sym (update-absent key xs miss)),
              )
        ]

    perform-Follows : (c : Call) → Returns (Follows (a.entry h) xs c) (perform m c h)
    unfolding perform
    perform-Follows (get key) =
        rw (get-value_of is key)
          (returns {s = h} (xs, is, got (contents xs) key (sym (or_null-contents xs key))))
    perform-Follows (contains key) =
        rw (contains-holds is key)
          (returns {s = h} (xs, is, asked (contents xs) key (sym (is_some-contents xs key))))
    perform-Follows (remove key) = remove-Follows key
    perform-Follows (set key value) = set-Follows key value
    perform-Follows clear =
        Returns-bind (clear-IsMap is) λ m' g (is', _, _). returns ([], is', cleared (contents xs))

  -- Any sequence of calls on a well-formed map ends well, in a well-formed map, with the answers of a
  -- run of the abstract map from the contents before to those after. The set of a new key stores it
  -- if the allocator has an address for an entry in the state of that call, and is refused if not.
  pub perform_all-Steps :
      (cs : List Call) {h : Entries} {m : HashMap} {xs : Cells Pair}
      → IsMap h m xs
      → Returns
          (λ (rs, m') h'.
            (ys : Cells Pair) × IsMap h' m' ys × Steps m h (contents xs) cs rs (contents ys))
          (perform_all m cs h)
  unfolding perform_all
  perform_all-Steps [] {h} {xs} is = returns {s = h} (xs, is, here)
  perform_all-Steps (c ∷ cs) {m} is =
      Returns-bind (Returns-run (perform-Follows is c)) λ (r, m') g ((ys, is', step), ran).
        Returns-bind (perform_all-Steps cs is')
          λ (rs, m'') g' (zs, is'', steps). returns (zs, is'', next ran step steps)
