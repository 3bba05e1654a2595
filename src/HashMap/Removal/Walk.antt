-- ===== src/HashMap/Removal/Walk.antt =====
-- The walk of `hashmap_remove` along a chain, and the chain without the entry.
use mathlib.Core.Path.{subst}
use rf_gateway.Base.{
  ℕ, zero, suc, ◌<◌, ◌≡◌, refl, ◌≢◌, true, false, Bool-cases, inl, inr, ◌⊎◌, [], ◌∷◌, arith, ◌==◌,
  ==_iff, ==_refl, ne→==-false, if◌then◌else◌, ok, length, Ptr, null, Points, Points-not_null,
  load-ok, ◌∙◌, sym,
}
use rf_gateway.Links.{Cells, ◌∈◌, ◌∉◌, ne_of_mem}
use rf_gateway.Links.Split.{less, less-absent}
use rf_gateway.HashMap.{HEntry, Entries, HashMap, unlink_entry, remove_loop}
use rf_gateway.HashMap.Assign.{has-addr_of}
use rf_gateway.HashMap.View.{Pair, LinkAt, Chain, last, more, Chain-frame, addr_of, holds}

-- The address in front of the first entry with the key.
abbrev pub prev_of : ℕ → Ptr → Cells Pair → Ptr
prev_of key previous [] = previous
prev_of key previous ((p, (k, v)) ∷ xs) = if k == key then previous else prev_of key p xs

abbrev pub Distinct : Cells Pair → Type 0
Distinct [] = Unit {0}
Distinct ((p, kv) ∷ xs) = (p ∉ xs) × Distinct xs

module _ {h : Entries} (m : HashMap) (key b : ℕ) where
  pub remove_loop-absent :
      (k : ℕ) (previous : Ptr) {entry : Ptr} {zs : Cells Pair}
      → Chain h entry zs
      → holds key zs ≡ false
      → length zs < k
      → remove_loop k m key b previous entry h ≡ ok (null, m) h
  unfolding remove_loop
  remove_loop-absent zero previous s miss fuel = absurd (omega arith)
  remove_loop-absent (suc k) previous last miss fuel = refl
  remove_loop-absent (suc k) previous (more {p} {kv} e s) miss fuel =
      let other : (kv.0 == key) ≡ false = ground arith in
      rw (Points-not_null e.points, load-ok e.points, e.key, other, e.next)
        (remove_loop-absent k p s (ground arith) (omega arith))

  pub remove_loop-found :
      (k : ℕ) (previous : Ptr) {entry : Ptr} {zs : Cells Pair}
      → Chain h entry zs
      → holds key zs ≡ true
      → length zs < k
      → (n : HEntry) × Points h (addr_of key zs) n
        × (remove_loop k m key b previous entry h
            ≡ unlink_entry m b (prev_of key previous zs) (addr_of key zs) n h)
  unfolding remove_loop
  remove_loop-found zero previous s hit fuel = absurd (omega arith)
  remove_loop-found (suc k) previous last hit fuel = cc
  remove_loop-found (suc k) previous (more {p} {kv} e s) hit fuel =
      elim (Bool-cases (kv.0 == key)) [
        | inl here ↦
            rw here
              (e.node, e.points, rw (Points-not_null e.points, load-ok e.points, e.key, here) refl)
        | inr there ↦
            let (n, at, runs) = remove_loop-found k p s (rw there at hit) (omega arith) in
            rw there
              (n, at, rw (Points-not_null e.points, load-ok e.points, e.key, there, e.next) runs)
      ]

-- The first entry of a chain is found behind what stands before it.
prev_of-first :
    {h : Entries} {q : Ptr} {zs : Cells Pair} (key : ℕ) (t p : Ptr)
    → Chain h q zs
    → Distinct zs
    → holds key zs ≡ true
    → addr_of key zs ≡ t
    → t ≡ q
    → prev_of key p zs ≡ p
prev_of-first key t p last d hit at same = cc
prev_of-first key t p (more {p = q} {kv} {xs} e s) d hit at same = elim (Bool-cases (kv.0 == key)) [
  | inl here ↦ rw here refl
  | inr there ↦
      let inside = has-addr_of key t xs (rw there at hit) (rw there at at) in
      absurd (ne_of_mem t q xs inside d.0 (sym same))
]

prev_of-step :
    (key q : ℕ) (kv : Pair) (xs : Cells Pair)
    → (prev_of key q xs ≡ q) ⊎ (prev_of key q xs ∈ xs)
    → prev_of key q xs ∈ ((q, kv) ∷ xs)
prev_of-step key q kv xs (inl e) = rw e (ground arith)
prev_of-step key q kv xs (inr i) = ground (arith, i)

pub prev_of-or : (key p : ℕ) (zs : Cells Pair) → (prev_of key p zs ≡ p) ⊎ (prev_of key p zs ∈ zs)
prev_of-or key p [] = inl refl
prev_of-or key p ((q, kv) ∷ xs) = elim (Bool-cases (kv.0 == key)) [
  | inl here ↦ inl (rw here refl)
  | inr there ↦
      let step : prev_of key p ((q, kv) ∷ xs) ≡ prev_of key q xs = rw there refl in
      inr (
        subst (λ a. a ∈ ((q, kv) ∷ xs)) (sym step) (prev_of-step key q kv xs (prev_of-or key q xs)))
]

-- Any other one is found behind an entry of the chain.
prev_of-mem :
    {h : Entries} {q : Ptr} {zs : Cells Pair} (key : ℕ) (t p : Ptr)
    → Chain h q zs
    → holds key zs ≡ true
    → addr_of key zs ≡ t
    → t ≢ q
    → prev_of key p zs ∈ zs
prev_of-mem key t p last hit at ne = cc
prev_of-mem key t p (more {p = q} {kv} {xs} e s) hit at ne = elim (Bool-cases (kv.0 == key)) [
  | inl here ↦ absurd (ne (sym (rw here at at)))
  | inr there ↦
      let step : prev_of key p ((q, kv) ∷ xs) ≡ prev_of key q xs = rw there refl in
      subst (λ a. a ∈ ((q, kv) ∷ xs)) (sym step) (prev_of-step key q kv xs (prev_of-or key q xs))
]

-- What the chain becomes: `g` keeps the other entries, and the one before goes on at `out`.
module _ {h g : Entries} (key : ℕ) (t prev out : Ptr)
    (at_t : (q : Ptr) (kv : Pair) → LinkAt h t q kv → q ≡ out)
    (keep : (a q : Ptr) (kv : Pair) → a ≢ t → a ≢ prev → LinkAt h a q kv → LinkAt g a q kv)
    (rechained : (q : Ptr) (kv : Pair) → prev ≢ t → LinkAt h prev q kv → LinkAt g prev out kv) where
  pub Chain-less :
      (previous : Ptr) {entry : Ptr} {zs : Cells Pair}
      → Chain h entry zs
      → Distinct zs
      → previous ∉ zs
      → holds key zs ≡ true
      → addr_of key zs ≡ t
      → prev_of key previous zs ≡ prev
      → Chain g (if t == entry then out else entry) (less t zs)
  Chain-less previous last d away hit is_t is_prev = cc
  Chain-less previous (more {p} {q} {kv} {xs} e s) d away hit is_t is_prev =
      elim (Bool-cases (kv.0 == key)) [
        | inl here ↦
            let same : p ≡ t = rw here at is_t in
            let same' : previous ≡ prev = rw here at is_prev in
            let gone : t ∉ xs = rw same at d.0 in
            let kept = Chain-frame s λ a q' kv' i l.
              keep a q' kv' (λ x. ne_of_mem a t xs i gone (sym x))
                (λ x. ne_of_mem a previous xs i (ground arith) (same' ∙ sym x)) l in
            let on : q ≡ out = at_t q kv (rw same at e) in
            rw (same, ==_refl t, less-absent t xs gone, ← on) kept
        | inr there ↦
            let hit' : holds key xs ≡ true = rw there at hit in
            let is_t' : addr_of key xs ≡ t = rw there at is_t in
            let is_prev' : prev_of key p xs ≡ prev = rw there at is_prev in
            let inside : t ∈ xs = has-addr_of key t xs hit' is_t' in
            let ne : p ≢ t = ne_of_mem t p xs inside d.0 in
            let rest = Chain-less p s d.1 d.0 hit' is_t' is_prev' in
            rw (ne→==-false t p (λ x. ne (sym x)), ne→==-false p t ne)
              (more
                (elim (Bool-cases (t == q)) [
                  | inl first ↦
                      let behind : p ≡ prev =
                        sym (prev_of-first key t p s d.1 hit' is_t' ((==_iff t q).0 first))
                        ∙ is_prev' in
                      rw (first, behind) (rechained q kv (λ x. ne (behind ∙ x)) (rw behind at e))
                  | inr later ↦
                      let mem : prev ∈ xs =
                        subst (λ a. a ∈ xs) is_prev'
                          (prev_of-mem key t p s hit' is_t' (ground arith)) in
                      rw later (keep p q kv ne (ne_of_mem prev p xs mem d.0) e)
                ])
                rest)
      ]
