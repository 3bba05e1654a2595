-- ===== src/Rf/Life/Start.antt =====
-- `rfInit` of rf.c.
use rf_gateway.Base.{
  ℕ, ◌≡◌, refl, Bool, true, Bool-cases, inl, inr, none, [], if◌then◌else◌, Ptr, Returns, returns,
}
use rf_gateway.HashMap.Bulk.Create.{empty_map-IsMap, made, create-made}
use rf_gateway.HashMap.View.{IsMap}
use rf_gateway.Rf.{Rf, in_entries}
use rf_gateway.Rf.Life.{init, init_with}

-- What `rfInit` ends in.
pub record Started (w : Rf) (ready : Bool) (r : ℕ) (w' : Rf) : Type 0 where
  pub result : r ≡ (if ready then 0 else 1)
  pub sock : w'.sock ≡ none
  pub map : ready ≡ true → IsMap w'.entries w'.map []
  pub entries : w'.entries ≡ w.entries

-- `rfInit` returns 0 with an empty well-formed map and no socket if both allocations of
-- `hashmap_create` succeed, and 1 otherwise.
pub init-Started :
    (fresh : Ptr) (room : Bool) (w : Rf) → Returns (Started w (made fresh room)) (init fresh room w)
unfolding init init_with in_entries
init-Started fresh room w =
    rw (create-made fresh room w.entries) (elim (Bool-cases (made fresh room)) [
      | inl ready ↦ rw ready (
          returns (record {
            result = refl;
            sock = refl;
            map = λ e. empty_map-IsMap w.entries;
            entries = refl;
          }))
      | inr short ↦
          rw short (returns (record { result = refl; sock = refl; map = λ e. cc; entries = refl }))
    ])
