-- ===== src/Gateway/Refused.antt =====
-- The returns of `main` of rfgw.c before the configuration is read.
use rf_gateway.Base.{
  ℕ, ◌≡◌, ◌≢◌, refl, ap, ◌∙◌, Bool, true, false, Bool-cases, inl, inr, Option, none, some, List, [],
  arith, leb, ◌==◌, if◌then◌else◌, pure, Returns, returns, Returns-mono, not, ◌||◌, write, Ptr,
  null,
}
use rf_gateway.HashMap.View.{IsMap}
use rf_gateway.HashMap.Bulk.Create.{made}
use rf_gateway.Rf.{Rf, in_devices}
use rf_gateway.Rf.Life.Start.{init-Started}
use rf_gateway.Rf.Life.Free.{de_init-Ended, no_device}
use rf_gateway.Config.{blank_device, config_parse}
use rf_gateway.Config.Tokens.{Token}
use rf_gateway.Gateway.{App, Boot, in_rf, with_config, main}
use rf_gateway.Gateway.Sockets.{in_rf-bind}

-- The file is opened, and there is memory for its bytes.
abbrev pub readable : Option (List ℕ) → Bool → Bool
readable none room = false
readable (some bytes) room = room

-- No thread and no server is started, no descriptor is closed, and no entry of a map is left.
pub record Unstarted (a : App) (expected code : ℕ) (a' : App) : Type 0 where
  pub result : code ≡ expected
  pub started : a'.started ≡ a.started
  pub closed : a'.closed ≡ a.closed
  pub udp : a'.udp ≡ a.udp
  pub ws : a'.ws ≡ a.ws
  pub entries : (p : Ptr) → a'.rf.entries p ≡ a.rf.entries p

module _ (jsmn : List ℕ → List Token) (decode : List ℕ → Option (List ℕ)) (s : Boot)
    (answers : List (Option (List ℕ))) (got : s.iterator ≢ null) where
  parse-refused :
      (file : Option (List ℕ)) (room : Bool) (w : Rf)
      → readable file room ≡ false
      → Returns
          (λ (code, interface) w'. ((code == 0) ≡ false) × (w' ≡ w))
          (config_parse jsmn decode s.key_room file room s.interface s.gw s.grants w)
  unfolding config_parse
  parse-refused none room w unread = returns {s = w} (refl, refl)
  parse-refused (some bytes) false w unread = returns {s = w} (refl, refl)
  parse-refused (some bytes) true w unread = cc

  with_config-Unstarted :
      (a : App)
      → IsMap a.rf.entries a.rf.map []
      → readable s.file s.file_room ≡ false
      → Returns (Unstarted a 1) (with_config jsmn decode s answers a)
  unfolding with_config in_rf in_devices
  with_config-Unstarted a is unread =
      let w : Rf = record a.rf { devices = write a.rf.devices s.gw (some blank_device) } in
      in_rf-bind (record a { rf = w }) _ (parse-refused s.file s.file_room w unread)
        λ (code, interface) w' (bad, same).
          rw (bad, same)
            (in_rf-bind (record a { rf = w }) (λ _. pure 1)
              (de_init-Ended s.iterator w got is no_device)
              λ r w'' end. returns (record {
                result = refl;
                started = refl;
                closed = refl;
                udp = refl;
                ws = refl;
                entries = end.entries;
              }))

  -- With memory for the iterator of rfDeInit: without an argument `main` returns 0, and where the map
  -- cannot be made, the file cannot be opened or there is no memory for its bytes, it returns 1; no
  -- thread and no server is started, no descriptor of the servers is closed, and the entries in the
  -- memory are those from before.
  pub main-Unstarted :
      (a : App)
      → (leb s.argc 1 || (not (made s.map s.map_room) || not (readable s.file s.file_room))) ≡ true
      → Returns (Unstarted a (if leb s.argc 1 then 0 else 1)) (main jsmn decode s answers a)
  unfolding main in_rf
  main-Unstarted a early = elim (Bool-cases (leb s.argc 1)) [
    | inl usage ↦ rw usage (
        returns {s = a} (record {
          result = refl;
          started = refl;
          closed = refl;
          udp = refl;
          ws = refl;
          entries = λ p. refl;
        }))
    | inr named ↦ rw named (
        in_rf-bind a _ (init-Started s.map s.map_room a.rf) λ r w st.
          elim (Bool-cases (made s.map s.map_room)) [
            | inl ready ↦
                let zero_code : r ≡ 0 = st.result ∙ rw ready refl in
                let unread : readable s.file s.file_room ≡ false = ground arith in
                rw zero_code (
                  Returns-mono (with_config-Unstarted (record a { rf = w }) (st.map ready) unread)
                    λ code a' u. record {
                      result = u.result;
                      started = u.started;
                      closed = u.closed;
                      udp = u.udp;
                      ws = u.ws;
                      entries = λ p. u.entries p ∙ ap (λ h. h p) st.entries;
                    })
            | inr short ↦
                let one_code : r ≡ 1 = st.result ∙ rw short refl in
                rw one_code (
                  returns (record {
                    result = refl;
                    started = refl;
                    closed = refl;
                    udp = refl;
                    ws = refl;
                    entries = λ p. ap (λ h. h p) st.entries;
                  }))
          ])
  ]
