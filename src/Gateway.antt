-- ===== src/Gateway.antt =====
-- `main` of rfgw.c: the start of the components, the console, and the end.
pub mod Sockets
pub mod Finished
pub mod Refused
use rf_gateway.Base.{
  ℕ, suc, ◌+◌, Bool, true, false, Option, none, some, List, [], ◌∷◌, ◌++◌, leb, ◌==◌, if◌then◌else◌,
  Run, ok, fault, out_of_fuel, Cmd, pure, ◌>>=◌, ◌>>◌, Ptr, store, codes, starts_with,
}
use rf_gateway.Rf.{Rf, in_devices}
use rf_gateway.Rf.Life.{Kernel, open_radio}
use rf_gateway.Rf.Life.{init as rf_init, de_init as rf_de_init}
use rf_gateway.Udp
use rf_gateway.Udp.{Udp}
use rf_gateway.Ws
use rf_gateway.Ws.{Ws, closable}
use rf_gateway.Config.{Grant, blank_device, config_parse}
use rf_gateway.Config.Tokens.{Token}

-- The functions that `main` starts as threads.
pub data Thread : Type 0 where
  rf_recv udp_listener ws_accept : Thread

-- `app` and the static state of the components; `started` are the threads in order, `closed` the
-- descriptors that udpDeInit gave to `close`.
pub record App : Type 0 where
  pub run : Bool
  pub rf : Rf
  pub udp : Udp
  pub ws : Ws
  pub started : List Thread
  pub closed : List ℕ

-- What the allocations, the file and the kernel give at the start, and what the block for the lines
-- holds before.
pub record Boot : Type 0 where
  pub argc : ℕ
  pub map : Ptr
  pub map_room : Bool
  pub file : Option (List ℕ)
  pub file_room : Bool
  pub key_room : Bool
  pub interface : List ℕ
  pub gw : Ptr
  pub grants : List Grant
  pub kernel : Kernel
  pub udp_socket : Option ℕ
  pub udp_binds : Bool
  pub ws_socket : Option ℕ
  pub ws_binds : Bool
  pub ws_listens : Bool
  pub iterator : Ptr
  pub line : List ℕ

module _ {A : Type 0} where
  pub in_rf_result : App → Run Rf A → Run App A
  in_rf_result a (ok r w) = ok r (record a { rf = w })
  in_rf_result a fault = fault
  in_rf_result a out_of_fuel = out_of_fuel

  unfoldable pub in_rf : Cmd Rf A → Cmd App A
  unfolding in_rf_result
  in_rf m a = in_rf_result a (m a.rf)

abbrev start : Thread → Cmd App (Unit {0})
start t a = ok tt (record a { started = a.started ++ t ∷ [] })

unfoldable pub udp_init : (socket : Option ℕ) (binds : Bool) → Cmd App ℕ
udp_init socket binds a =
    let (code, udp) = Udp.init socket binds a.udp in ok code (record a { udp = udp })

abbrev udp_de_init : Cmd App (Unit {0})
udp_de_init a =
    let (code, fd, udp) = Udp.de_init a.udp in
    ok tt (record a { udp = udp; closed = a.closed ++ closable fd })

unfoldable pub ws_init : (socket : Option ℕ) (binds listens : Bool) → Cmd App ℕ
ws_init socket binds listens a =
    let (code, ws) = Ws.init socket binds listens a.ws in ok code (record a { ws = ws })

abbrev ws_de_init : Cmd App (Unit {0})
ws_de_init a = let (code, ws) = Ws.de_init a.ws in ok tt (record a { ws = ws })

abbrev set_run : Bool → Cmd App (Unit {0})
set_run on a = ok tt (record a { run = on })

-- The end that the console asks for.
unfoldable pub shut_down : Boot → Cmd App (Unit {0})
unfolding in_rf
shut_down s = do set_run false; ws_de_init; udp_de_init; in_rf (rf_de_init s.iterator); pure tt

abbrev pub quit : List ℕ
quit = codes "quit"

-- The loop over the lines of the console. Where `getline` fails, `none`, `line` stays as it was; with
-- no more answers it waits.
unfoldable pub console : Boot → List (Option (List ℕ)) → (line : List ℕ) → Cmd App ℕ
unfolding starts_with
console s [] line = λ _. out_of_fuel
console s (none ∷ answers) line = do
  let rest = console s answers line
  if starts_with line quit then (do shut_down s; pure 0) else rest
console s (some next ∷ answers) line = do
  let rest = console s answers next
  if starts_with next quit then (do shut_down s; pure 0) else rest

-- From the call of `wsInit` on.
unfoldable pub with_ws : Boot → List (Option (List ℕ)) → Cmd App ℕ
unfolding in_rf
with_ws s answers = do
  failed ← ws_init s.ws_socket s.ws_binds s.ws_listens
  if failed == 0
      then (do start Thread.ws_accept; set_run true; console s answers s.line)
      else (do udp_de_init; in_rf (rf_de_init s.iterator); pure 4)

-- From the call of `udpInit` on.
unfoldable pub with_udp : Boot → List (Option (List ℕ)) → Cmd App ℕ
unfolding in_rf
with_udp s answers = do
  failed ← udp_init s.udp_socket s.udp_binds
  if failed == 0
      then (do start Thread.udp_listener; with_ws s answers)
      else (do in_rf (rf_de_init s.iterator); pure 3)

-- From the call of `rfOpen` on.
unfoldable pub with_radio : Boot → List (Option (List ℕ)) → Cmd App ℕ
unfolding with_udp in_rf
with_radio s answers = do
  failed ← in_rf (open_radio s.kernel s.gw)
  if failed == 0
      then (do start Thread.rf_recv; with_udp s answers)
      else (do in_rf (rf_de_init s.iterator); pure 2)

module _ (jsmn : List ℕ → List Token) (decode_block : List ℕ → Option (List ℕ)) where
  -- The gateway's record, on the stack of `main`, and the configuration.
  unfoldable pub with_config : Boot → List (Option (List ℕ)) → Cmd App ℕ
  unfolding with_radio in_rf
  with_config s answers = do
    in_rf (in_devices (store s.gw (some blank_device)))
    (failed, interface) ←
        in_rf
          (config_parse jsmn decode_block s.key_room s.file s.file_room s.interface s.gw s.grants)
    if failed == 0 then with_radio s answers else (do in_rf (rf_de_init s.iterator); pure 1)

  unfoldable pub main : Boot → List (Option (List ℕ)) → Cmd App ℕ
  unfolding with_config in_rf
  main s answers = if leb s.argc 1 then pure 0 else do
    failed ← in_rf (rf_init s.map s.map_room)
    if failed == 0 then with_config s answers else pure 1
