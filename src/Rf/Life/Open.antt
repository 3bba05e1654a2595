-- ===== src/Rf/Life/Open.antt =====
-- `rfOpen` of rf.c on each of its branches.
use rf_gateway.Base.{
  ℕ, ◌≡◌, refl, Bool, true, false, not, ◌&&◌, ◌||◌, Bool-cases, inl, inr, Option, none, some, List,
  [], ◌∷◌, ◌++◌, ◌==◌, if◌then◌else◌, Ptr, ok, append-nil, Returns, returns, Points, load-ok,
  modify-ok, bytes32, write,
}
use rf_gateway.Checksum.{address_of}
use rf_gateway.Rf.{Rf, Device, in_devices}
use rf_gateway.Rf.Life.{Kernel, open_radio, with_flags, bring_up, bind_sock, close_sock}

-- The link address that is asked for when the interface is down.
abbrev pub link_address : Device → List ℕ
link_address g = bytes32 (address_of g.sn) ++ (bytes32 g.addr ++ 0x00 ∷ 0xf0 ∷ [])

-- The first call behind `socket` that fails decides the result; the address and the flags are set only for an
-- interface that is down.
abbrev set_up_code : Kernel → Device → (down : Bool) → ℕ
set_up_code sys g down =
    if down && not (sys.takes_addr (link_address g))
    then 4
    else if down && not sys.takes_flags
    then 5
    else if sys.binds
    then 0
    else 6

abbrev flags_code : Kernel → Device → Option Bool → ℕ
flags_code sys g none = 2
flags_code sys g (some up) = set_up_code sys g (not up)

abbrev pub open_code : Kernel → Device → ℕ
open_code sys g = if sys.has_index then flags_code sys g sys.is_up else 1

-- The results after which the socket is closed, and what `close` is called with.
abbrev pub gives_back : ℕ → Bool
gives_back r = (r == 2) || ((r == 4) || (r == 5))

abbrev pub descriptors : Option ℕ → List ℕ
descriptors none = []
descriptors (some fd) = fd ∷ []

pub record Opened (w : Rf) (sys : Kernel) (gw : Ptr) (g : Device) (r : ℕ) (w' : Rf) : Type 0 where
  pub code : r ≡ open_code sys g
  pub sock : w'.sock ≡ sys.fd
  pub closed : w'.closed ≡ (if gives_back r then w.closed ++ descriptors sys.fd else w.closed)
  pub run : w'.run ≡ (if r == 0 then true else w.run)
  pub gw_set : w'.gw ≡ (if r == 0 then gw else w.gw)

pub close_sock-descriptors :
    (w : Rf) → close_sock w ≡ ok tt (record w { closed = w.closed ++ descriptors w.sock })
unfolding close_sock
close_sock-descriptors w = go w.sock
  where
    go :
        (o : Option ℕ)
        → (elim o [ none ↦ ok tt w | some fd ↦ ok tt (record w { closed = w.closed ++ fd ∷ [] }) ])
          ≡ ok tt (record w { closed = w.closed ++ descriptors o })
    go none = rw append-nil refl
    go (some fd) = refl

module _ (w : Rf) (sys : Kernel) (gw : Ptr) (g : Device) (at : Points w.devices gw g) where
  abbrev opened : Rf
  opened = record w { sock = sys.fd }

  abbrev hashed : Rf
  hashed = record opened {
    devices = write w.devices gw (some (record g { addr = address_of g.sn }));
  }

  bind_sock-Opened :
      (if sys.binds then 0 else 6) ≡ open_code sys g
      → Returns (Opened w sys gw g) (bind_sock sys gw hashed)
  unfolding bind_sock
  bind_sock-Opened code = elim (Bool-cases sys.binds) [
    | inl bound ↦ simp bound (
        returns (record {
          code = simp bound at code;
          sock = refl;
          closed = refl;
          run = refl;
          gw_set = refl;
        }))
    | inr unbound ↦ simp unbound (
        returns (record {
          code = simp unbound at code;
          sock = refl;
          closed = refl;
          run = refl;
          gw_set = refl;
        }))
  ]

  bring_up-Opened :
      sys.has_index ≡ true
      → sys.is_up ≡ some false
      → Returns (Opened w sys gw g) (bring_up sys gw opened)
  unfolding bring_up in_devices
  bring_up-Opened found down =
      rw (load-ok at, modify-ok at (λ d. record d { addr = address_of d.sn }))
        (elim (Bool-cases (sys.takes_addr (link_address g))) [
          | inr refused ↦
              simp (refused, close_sock-descriptors hashed)
                (returns (record {
                  code = simp (found, down, refused) refl;
                  sock = refl;
                  closed = refl;
                  run = refl;
                  gw_set = refl;
                }))
          | inl taken ↦ elim (Bool-cases sys.takes_flags) [
            | inr refused ↦
                simp (taken, refused, close_sock-descriptors hashed)
                  (returns (record {
                    code = simp (found, down, taken, refused) refl;
                    sock = refl;
                    closed = refl;
                    run = refl;
                    gw_set = refl;
                  }))
            | inl set ↦ simp (taken, set) (bind_sock-Opened (simp (found, down, taken, set) refl))
          ]
        ])

  with_flags-Opened :
      (o : Option Bool)
      → sys.has_index ≡ true
      → sys.is_up ≡ o
      → Returns (Opened w sys gw g) (with_flags sys gw o opened)
  unfolding with_flags in_devices
  with_flags-Opened none found unread = rw (close_sock-descriptors opened) (
      returns (record {
        code = simp (found, unread) refl;
        sock = refl;
        closed = refl;
        run = refl;
        gw_set = refl;
      }))
  with_flags-Opened (some true) found up =
      rw (modify-ok at (λ d. record d { addr = address_of d.sn }))
        (bind_sock-Opened (simp (found, up) refl))
  with_flags-Opened (some false) found down = bring_up-Opened found down

  -- `rfOpen` does not look at the result of `socket`. It returns 0 exactly if every other call that it
  -- makes succeeds, and otherwise the code of the first of them that fails. If it returns 0, it sets
  -- `rf.run` and keeps the gateway's record; otherwise both stay as they were. What `socket` gave
  -- stays in `rf.sock` either way; it is closed for the codes 2, 4 and 5, and left open for 1 and 6.
  pub open_radio-Opened : Returns (Opened w sys gw g) (open_radio sys gw w)
  unfolding open_radio
  open_radio-Opened = elim (Bool-cases sys.has_index) [
    | inl found ↦ simp found (with_flags-Opened sys.is_up found refl)
    | inr missing ↦ simp missing (
        returns (record {
          code = simp missing refl;
          sock = refl;
          closed = refl;
          run = refl;
          gw_set = refl;
        }))
  ]
