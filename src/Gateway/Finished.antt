-- ===== src/Gateway/Finished.antt =====
-- The end of `main` of rfgw.c, from the call of `udpInit` on.
use rf_gateway.Base.{
  ℕ, ◌≡◌, ◌≢◌, refl, ap, ◌∙◌, Bool, true, false, ◌&&◌, ◌||◌, Bool-cases, inl, inr, Option, none,
  some, List, [], ◌∷◌, ◌++◌, if◌then◌else◌, pure, ◌>>◌, Returns, returns, Returns-bind,
  Returns-mono, Ptr, null, starts_with, ne→==-false,
}
use rf_gateway.Links.{Cells}
use rf_gateway.HashMap.View.{Pair, IsMap}
use rf_gateway.Rf.{Rf}
use rf_gateway.Rf.Life.{de_init as rf_de_init}
use rf_gateway.Rf.Life.Free.{Owned, Ended, de_init-Ended}
use rf_gateway.Udp
use rf_gateway.Ws
use rf_gateway.Ws.{closable}
use rf_gateway.Gateway.{Thread, App, Boot, in_rf, shut_down, quit, console, with_ws, with_udp}
use rf_gateway.Gateway.Sockets.{in_rf-bind, udp_up, ws_up, ws_init-cases, udp_init-cases}

-- One of the lines that the console has, `line` first, asks for the end.
abbrev pub quits : (line : List ℕ) → List (Option (List ℕ)) → Bool
quits line [] = false
quits line (none ∷ answers) = starts_with line quit || quits line answers
quits line (some next ∷ answers) = starts_with next quit || quits next answers

-- The result of `main`.
abbrev pub end_code : (udp ws : Bool) → ℕ
end_code false ws = 3
end_code true false = 4
end_code true true = 0

-- What `main` ends in: the radio is given back, the sockets that are set up are closed, and nothing
-- runs.
pub record Finished (s : Boot) (a : App) (xs : Cells Pair) (all : Cells Ptr) (udp ws : Bool)
    (code : ℕ) (a' : App) : Type 0 where
  pub result : code ≡ end_code udp ws
  pub radio : Ended a.rf xs all 0 a'.rf
  pub closed : a'.closed ≡ (if udp then a.closed ++ closable s.udp_socket else a.closed)
  pub ws_closed : a'.ws.closed ≡ (if udp then a.ws.closed ++ closable s.ws_socket else a.ws.closed)
  pub udp_run : a.udp.run ≡ false → a'.udp.run ≡ false
  pub ws_run : a.ws.run ≡ false → a'.ws.run ≡ false

module _ (s : Boot) (w : Rf) {xs : Cells Pair} {all : Cells Ptr} (got : s.iterator ≢ null)
    (is : IsMap w.entries w.map xs) (o : Owned w.devices w.nodes xs all) where
  -- The radio's end, in a state of `main` whose radio is `w`.
  radio-Ended :
      {A : Type 0} (a : App) (code : A)
      → a.rf ≡ w
      → Returns
          (λ c a'. (c ≡ code) × Ended w xs all 0 a'.rf × (a' ≡ record a { rf = a'.rf }))
          ((in_rf (rf_de_init s.iterator) >> pure code) a)
  unfolding in_rf
  radio-Ended a code e = rw e (
      in_rf-bind a (λ _. pure code) (de_init-Ended s.iterator w got is o)
        λ r w' end. returns (
          refl,
          record {
            result = refl;
            run = end.run;
            devices = end.devices;
            nodes = end.nodes;
            entries = end.entries;
            packets = end.packets;
            closed = end.closed;
          },
          refl,
        ))

  shut_down-Ended :
      (a : App)
      → a.rf ≡ w
      → Returns
          (λ _ a'.
            Ended w xs all 0 a'.rf
            × (a'.closed ≡ a.closed ++ closable a.udp.sock)
            × (a'.ws.closed ≡ a.ws.closed ++ closable a.ws.sock)
            × (a'.udp.run ≡ false)
            × (a'.ws.run ≡ false))
          (shut_down s a)
  unfolding shut_down
  shut_down-Ended a e =
      let down : App = record a {
        run = false;
        ws = (Ws.de_init a.ws).1;
        udp = (Udp.de_init a.udp).2;
        closed = a.closed ++ closable a.udp.sock;
      } in
      Returns-mono (radio-Ended down tt e) λ _ a' (_, end, same). (
        end,
        ap (λ b. b.closed) same,
        ap (λ b. b.ws.closed) same,
        ap (λ b. b.udp.run) same,
        ap (λ b. b.ws.run) same,
      )

  abbrev Closed : App → ℕ → App → Type 0
  Closed a code a' =
      (code ≡ 0)
      × Ended w xs all 0 a'.rf
      × (a'.closed ≡ a.closed ++ closable a.udp.sock)
      × (a'.ws.closed ≡ a.ws.closed ++ closable a.ws.sock)
      × (a'.udp.run ≡ false)
      × (a'.ws.run ≡ false)

  quit-Closed : (a : App) → a.rf ≡ w → Returns (Closed a) ((shut_down s >> pure 0) a)
  quit-Closed a e =
      Returns-bind (shut_down-Ended a e)
        λ _ a' (end, udp, ws, udp_run, ws_run). returns (refl, end, udp, ws, udp_run, ws_run)

  console-Closed :
      (answers : List (Option (List ℕ))) (line : List ℕ) (a : App)
      → a.rf ≡ w
      → quits line answers ≡ true
      → Returns (Closed a) (console s answers line a)
  unfolding console
  console-Closed [] line a e asked = cc
  console-Closed (none ∷ answers) line a e asked = elim (Bool-cases (starts_with line quit)) [
    | inl now ↦ rw now (quit-Closed a e)
    | inr later ↦ rw later (console-Closed answers line a e (rw later at asked))
  ]
  console-Closed (some next ∷ answers) line a e asked = elim (Bool-cases (starts_with next quit)) [
    | inl now ↦ rw now (quit-Closed a e)
    | inr later ↦ rw later (console-Closed answers next a e (rw later at asked))
  ]

  abbrev up : Bool
  up = ws_up s.ws_socket s.ws_binds s.ws_listens

  -- From the call of `wsInit` on.
  with_ws-Ended :
      (answers : List (Option (List ℕ))) (a : App)
      → a.rf ≡ w
      → (ws_up s.ws_socket s.ws_binds s.ws_listens ≡ true → quits s.line answers ≡ true)
      → Returns
          (λ code a'.
            (code ≡ end_code true (ws_up s.ws_socket s.ws_binds s.ws_listens))
            × Ended w xs all 0 a'.rf
            × (a'.closed ≡ a.closed ++ closable a.udp.sock)
            × (a'.ws.closed ≡ a.ws.closed ++ closable s.ws_socket)
            × (a'.udp.run ≡ false)
            × (a.ws.run ≡ false → a'.ws.run ≡ false))
          (with_ws s answers a)
  unfolding with_ws
  with_ws-Ended answers a e asked = elim (ws_init-cases s.ws_socket s.ws_binds s.ws_listens a) [
    | inl (is_up, done) ↦
        rw (done, is_up)
          (Returns-mono
            (console-Closed answers s.line
              (record a {
                ws = record a.ws { sock = s.ws_socket; run = true };
                started = a.started ++ Thread.ws_accept ∷ [];
                run = true;
              })
              e (asked is_up))
            λ code a' (is_zero, end, udp, ws, udp_run, ws_run).
              (is_zero, end, udp, ws, udp_run, λ _. ws_run))
    | inr (is_down, (code, bad, done)) ↦
        rw (done, is_down, ne→==-false code 0 bad)
          (Returns-mono
            (radio-Ended
              (record a {
                ws = record a.ws {
                  sock = s.ws_socket;
                  closed = a.ws.closed ++ closable s.ws_socket;
                };
                udp = (Udp.de_init a.udp).2;
                closed = a.closed ++ closable a.udp.sock;
              })
              4 e)
            λ c a' (is_four, end, same). (
              is_four,
              end,
              ap (λ b. b.closed) same,
              ap (λ b. b.ws.closed) same,
              ap (λ b. b.udp.run) same,
              λ off. ap (λ b. b.ws.run) same ∙ off,
            ))
  ]

  -- From the call of `udpInit` on, with memory for the iterator of rfDeInit, no thread coming in
  -- between, a well-formed map whose values are different live devices with queues of their own, and,
  -- if both servers start, a line of the console that begins with quit: `main` ends with 0, or with 3
  -- or 4 for the server that does not start. The radio is given back in each case; the sockets of
  -- servers that were started or half started are closed, except that of a UDP socket that cannot be
  -- bound; and no server runs.
  pub with_udp-Finished :
      (answers : List (Option (List ℕ))) (a : App)
      → a.rf ≡ w
      → ((udp_up s.udp_socket s.udp_binds && ws_up s.ws_socket s.ws_binds s.ws_listens) ≡ true
          → quits s.line answers ≡ true)
      → Returns
          (Finished s a xs all
            (udp_up s.udp_socket s.udp_binds)
            (ws_up s.ws_socket s.ws_binds s.ws_listens))
          (with_udp s answers a)
  unfolding with_udp
  with_udp-Finished answers a e asked = elim (udp_init-cases s.udp_socket s.udp_binds a) [
    | inl (is_up, done) ↦
        rw (done, is_up)
          (Returns-mono
            (with_ws-Ended answers
              (record a {
                udp = record { sock = s.udp_socket; run = true };
                started = a.started ++ Thread.udp_listener ∷ [];
              })
              e (rw is_up at asked))
            λ code a' (result, end, closed, ws_closed, udp_run, ws_run). record {
              result = result;
              radio = rw e end;
              closed = closed;
              ws_closed = ws_closed;
              udp_run = λ _. udp_run;
              ws_run = ws_run;
            })
    | inr (is_down, (code, bad, done)) ↦
        rw (done, is_down, ne→==-false code 0 bad)
          (Returns-mono (radio-Ended (record a { udp = record a.udp { sock = s.udp_socket } }) 3 e)
            λ c a' (is_three, end, same). record {
              result = is_three;
              radio = rw e end;
              closed = ap (λ b. b.closed) same;
              ws_closed = ap (λ b. b.ws.closed) same;
              udp_run = λ off. ap (λ b. b.udp.run) same ∙ off;
              ws_run = λ off. ap (λ b. b.ws.run) same ∙ off;
            })
  ]
