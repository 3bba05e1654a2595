-- ===== src/Ws/Accept.antt =====
-- `wsAcceptThread` of ws.c and the start of the threads that it creates, as events in the order in
-- which they come. All threads are handed the address of the one variable `remoteSockfd`.
pub mod Batches
use rf_gateway.Base.{
  ℕ, suc, zero, Bool, true, false, Option, none, some, List, [], ◌∷◌, ◌++◌, if◌then◌else◌,
}
use rf_gateway.Ws.{Ws}

-- `remoteSockfd`, `none` for -1, how many threads have not read it yet, and what the others read.
pub record Accept : Type 0 where
  pub remote : Option ℕ
  pub waiting : ℕ
  pub serving : List (Option ℕ)

-- A call of `accept` returns, or a thread begins and copies its descriptor.
pub data Event : Type 0 where
  accepted : Option ℕ → Event
  begun : Event

-- While `run` is set. `none` is an event that cannot come.
accept_event : Accept → Event → Option Accept
accept_event a (accepted none) = some (record a { remote = none })
accept_event a (accepted (some fd)) = some (record a { remote = some fd; waiting = suc a.waiting })
accept_event a begun = elim a.waiting [
  | zero ↦ none
  | suc n ↦ some (record a { waiting = n; serving = a.serving ++ a.remote ∷ [] })
]

-- A run of the loop: once `run` is cleared nothing more is accepted.
abbrev pub guarded : Ws → Event → Bool
guarded ws (accepted fd) = ws.run
guarded ws begun = true

continued : Option Accept → (Accept → Option Accept) → Option Accept
continued none run = none
continued (some a) run = run a

unfoldable pub accept_run : Ws → Accept → List Event → Option Accept
unfolding accept_event continued
accept_run ws a [] = some a
accept_run ws a (e ∷ es) =
    if guarded ws e then continued (accept_event a e) (λ a'. accept_run ws a' es) else none
