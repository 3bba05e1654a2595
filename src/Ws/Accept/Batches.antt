-- ===== src/Ws/Accept/Batches.antt =====
-- Which connections the threads of `wsAcceptThread` serve.
use rf_gateway.Base.{
  ℕ, zero, suc, ◌+◌, ◌≡◌, refl, ap, ◌∙◌, true, Option, none, some, List, [], ◌∷◌, ◌++◌, arith, map,
  replicate, append_assoc, append-nil,
}
use rf_gateway.Ws.{Ws}
use rf_gateway.Ws.Accept.{Accept, Event, guarded, accept_run, accept_event}

-- How many of the calls of `accept` succeed, and what is in `remoteSockfd` after them.
abbrev pub opened : List (Option ℕ) → ℕ
opened [] = 0
opened (none ∷ rs) = opened rs
opened (some fd ∷ rs) = suc (opened rs)

abbrev pub last_of : Option ℕ → List (Option ℕ) → Option ℕ
last_of r [] = r
last_of r (r' ∷ rs) = last_of r' rs

-- Calls of `accept` that return in a row, then the start of each thread that they created; and so on.
abbrev pub in_batches : List (List (Option ℕ)) → List Event
in_batches [] = []
in_batches (rs ∷ more) =
    map Event.accepted rs ++ (replicate (opened rs) Event.begun ++ in_batches more)

-- What the threads get, and what is in `remoteSockfd` at the end.
abbrev pub served : Option ℕ → List (List (Option ℕ)) → List (Option ℕ)
served r [] = []
served r (rs ∷ more) = replicate (opened rs) (last_of r rs) ++ served (last_of r rs) more

abbrev pub final : Option ℕ → List (List (Option ℕ)) → Option ℕ
final r [] = r
final r (rs ∷ more) = final (last_of r rs) more

accept_run-step :
    (ws : Ws) (a a' : Accept) (e : Event) (es : List Event)
    → guarded ws e ≡ true
    → accept_event a e ≡ some a'
    → accept_run ws a (e ∷ es) ≡ accept_run ws a' es
unfolding accept_run
accept_run-step ws a a' e es may e' = rw (may, e') refl

module _ (ws : Ws) (on : ws.run ≡ true) where
  accept_run-accepted :
      (rs : List (Option ℕ)) (remote : Option ℕ) (n : ℕ) (serving : List (Option ℕ))
      (es : List Event)
      → accept_run ws
          (record { remote = remote; waiting = n; serving = serving })
          (map Event.accepted rs ++ es)
        ≡ accept_run ws
            (record { remote = last_of remote rs; waiting = opened rs + n; serving = serving })
            es
  unfolding accept_run accept_event
  accept_run-accepted [] remote n serving es = let same : 0 + n ≡ n = omega arith in rw same refl
  accept_run-accepted (none ∷ rs) remote n serving es =
      accept_run-step ws (record { remote = remote; waiting = n; serving = serving })
        (record { remote = none; waiting = n; serving = serving }) (Event.accepted none)
        (map Event.accepted rs ++ es) on refl
      ∙ accept_run-accepted rs none n serving es
  accept_run-accepted (some fd ∷ rs) remote n serving es =
      let moved : suc (opened rs) + n ≡ opened rs + suc n = omega arith in
      accept_run-step ws (record { remote = remote; waiting = n; serving = serving })
        (record { remote = some fd; waiting = suc n; serving = serving }) (Event.accepted (some fd))
        (map Event.accepted rs ++ es) on refl
      ∙ rw moved (accept_run-accepted rs (some fd) (suc n) serving es)

  accept_run-begun :
      (n : ℕ) (remote : Option ℕ) (serving : List (Option ℕ)) (es : List Event)
      → accept_run ws
          (record { remote = remote; waiting = n; serving = serving })
          (replicate n Event.begun ++ es)
        ≡ accept_run ws
            (record { remote = remote; waiting = 0; serving = serving ++ replicate n remote })
            es
  unfolding accept_run
  accept_run-begun zero remote serving es = rw append-nil refl
  accept_run-begun (suc n) remote serving es =
      rw (append_assoc serving (remote ∷ []) (replicate n remote)) at
        (accept_run-begun n remote (serving ++ remote ∷ []) es)

  -- While the server runs and with no thread that still has to begin: where calls of `accept` return
  -- in batches, and the threads of each batch begin behind it, each of them gets the result of the
  -- last call of its batch, the failure included; no other connection of the batch is served.
  pub accept_run-in_batches :
      (batches : List (List (Option ℕ))) (remote : Option ℕ) (serving : List (Option ℕ))
      → accept_run ws
          (record { remote = remote; waiting = 0; serving = serving })
          (in_batches batches)
        ≡ some (record {
          remote = final remote batches;
          waiting = 0;
          serving = serving ++ served remote batches;
        })
  unfolding accept_run
  accept_run-in_batches [] remote serving = rw append-nil refl
  accept_run-in_batches (rs ∷ more) remote serving =
      let none_before : opened rs + 0 ≡ opened rs = omega arith in
      let begins = accept_run-begun (opened rs) (last_of remote rs) serving (in_batches more) in
      let ends =
        accept_run-in_batches more (last_of remote rs)
          (serving ++ replicate (opened rs) (last_of remote rs)) in
      accept_run-accepted rs remote 0 serving (replicate (opened rs) Event.begun ++ in_batches more)
      ∙ rw (none_before, begins, ends)
          (ap (λ l. some (record { remote = final remote (rs ∷ more); waiting = 0; serving = l }))
            (append_assoc serving _ _))
