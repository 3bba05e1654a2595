-- ===== src/Gateway/Sockets.antt =====
-- What `main` of rfgw.c gets from `udpInit` and `wsInit`, and the calls on the radio in its state.
use rf_gateway.Base.{
  ℕ, ◌≡◌, ◌≢◌, refl, Bool, true, false, ◌&&◌, inl, inr, ◌⊎◌, Option, none, some, ◌++◌, arith, Run,
  Cmd, ok, and_then, Returns, returns, append-nil,
}
use rf_gateway.Rf.{Rf}
use rf_gateway.Ws.{closable}
use rf_gateway.Gateway.{App, in_rf_result, udp_init, ws_init}

pub in_rf-bind :
    {A B : Type 0} {P : A → Rf → Type 0} {Q : B → App → Type 0} (a : App) {r : Run Rf A}
    (k : A → Cmd App B)
    → Returns P r
    → ((x : A) (w : Rf) → P x w → Returns Q (k x (record a { rf = w })))
    → Returns Q (and_then (in_rf_result a r) k)
unfolding in_rf_result
in_rf-bind a k (returns p) next = next _ _ p

-- The sockets of the hosts and of the browsers are set up.
abbrev pub udp_up : Option ℕ → Bool → Bool
udp_up none binds = false
udp_up (some fd) binds = binds

abbrev pub ws_up : Option ℕ → Bool → Bool → Bool
ws_up none binds listens = false
ws_up (some fd) binds listens = binds && listens

-- The server of the browsers is set up, or has closed its socket.
pub ws_init-cases :
    (socket : Option ℕ) (binds listens : Bool) (a : App)
    → ((ws_up socket binds listens ≡ true)
        × (ws_init socket binds listens a
            ≡ ok 0 (record a { ws = record a.ws { sock = socket; run = true } })))
      ⊎ ((ws_up socket binds listens ≡ false)
          × ((code : ℕ) × (code ≢ 0)
              × (ws_init socket binds listens a
                  ≡ ok code (record a {
                    ws = record a.ws { sock = socket; closed = a.ws.closed ++ closable socket };
                  }))))
unfolding ws_init
ws_init-cases none binds listens a = inr (refl, (1, omega arith, rw append-nil refl))
ws_init-cases (some fd) false listens a = inr (refl, (1, omega arith, refl))
ws_init-cases (some fd) true false a = inr (refl, (3, omega arith, refl))
ws_init-cases (some fd) true true a = inl (refl, refl)

pub udp_init-cases :
    (socket : Option ℕ) (binds : Bool) (a : App)
    → ((udp_up socket binds ≡ true)
        × (udp_init socket binds a
            ≡ ok 0 (record a { udp = record { sock = socket; run = true } })))
      ⊎ ((udp_up socket binds ≡ false)
          × ((code : ℕ) × (code ≢ 0)
              × (udp_init socket binds a
                  ≡ ok code (record a { udp = record a.udp { sock = socket } }))))
unfolding udp_init
udp_init-cases none binds a = inr (refl, (1, omega arith, refl))
udp_init-cases (some fd) false a = inr (refl, (2, omega arith, refl))
udp_init-cases (some fd) true a = inl (refl, refl)
