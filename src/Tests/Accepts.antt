-- ===== src/Tests/Accepts.antt =====
-- Two batches of connections, the second with a failure behind it.
use rf_gateway.Base.{ℕ, ◌≡◌, refl, true, Option, none, some, List, [], ◌∷◌}
use rf_gateway.Ws.{Ws}
use rf_gateway.Ws.Accept.{accept_run}
use rf_gateway.Ws.Accept.Batches.{in_batches, accept_run-in_batches}

abbrev server : Ws
server = record { sock = some 3; run = true; closed = [] }

abbrev batches : List (List (Option ℕ))
batches = (some 5 ∷ some 6 ∷ []) ∷ (some 7 ∷ none ∷ []) ∷ []

accept_run-in_batches_example :
    accept_run server (record { remote = none; waiting = 0; serving = [] }) (in_batches batches)
    ≡ some (record { remote = none; waiting = 0; serving = some 6 ∷ some 6 ∷ none ∷ [] })
accept_run-in_batches_example = accept_run-in_batches server refl batches none []
