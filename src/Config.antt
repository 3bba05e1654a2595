-- ===== src/Config.antt =====
-- config.c: the tokens of the configuration become the gateway's record and the devices of rf.c.
pub mod Scan
pub mod Tokens
pub mod Settings
pub mod Effects
pub mod Rounds
pub mod Object
pub mod Last
pub mod Devices
pub mod Enrol
pub mod ObjectList
pub mod Enrolled
use rf_gateway.Base.{
  ℕ, zero, suc, ◌+◌, ◌-◌, ◌%◌, Bool, true, false, not, ◌&&◌, ◌||◌, Option, none, some, List, [],
  ◌∷◌, ◌++◌, ltb, leb, ◌==◌, if◌then◌else◌, fault, out_of_fuel, Cmd, pure, ◌>>=◌, ◌>>◌, Ptr, null,
  store, modify, length, replicate, take, patch, slice, span, u8, u16, u32, codes,
}
use rf_gateway.LinkedList
use rf_gateway.Rf.{Rf, Device, in_devices}
use rf_gateway.Rf.Enqueue.{add_device}
use rf_gateway.Config.Scan.{scan, assigned}
use rf_gateway.Config.Tokens.{Token, is_object, before_zero, token_at, text_of, json_eq}

abbrev pub supported_version : ℕ
supported_version = 1

abbrev pub max_iface_len : ℕ
max_iface_len = 16

-- What the allocations for one device give: `calloc`, `list_create`, and the two of `hashmap_set`.
pub record Grant : Type 0 where
  pub device : Ptr
  pub queue : Ptr
  pub entry : Ptr
  pub table : Bool

-- Behind the last grant there is no memory.
abbrev pub next_grant : List Grant → Grant
next_grant [] = record { device = null; queue = null; entry = null; table = false }
next_grant (g ∷ gs) = g

abbrev pub later_grants : List Grant → List Grant
later_grants [] = []
later_grants (g ∷ gs) = gs

-- The variables of `configParse`. `rd` has no value at first; `grants` begin with that of the last
-- device that was allocated, and with one of no device before.
pub record Walk : Type 0 where
  pub version : ℕ
  pub ingw : ℕ
  pub indev : ℕ
  pub rd : Option Ptr
  pub interface : List ℕ
  pub grants : List Grant

-- `*rd`, changed.
unfoldable pub change : Option Ptr → (Device → Device) → Cmd Rf (Unit {0})
change none f = λ _. fault
change (some p) f = in_devices (modify p f)

abbrev pub blank_device : Device
blank_device = record {
  addr = 0;
  sn = 0;
  key = replicate 16 0;
  iv = replicate 16 0;
  ctr = 0;
  packet_queue = none;
}

-- `calloc` of a device, with the grants from its own on.
unfoldable pub alloc_device : List Grant → Cmd Rf (Option Ptr)
alloc_device grants = do
  let p = (next_grant grants).device
  if p == null then pure tt else in_devices (store p (some blank_device))
  pure (some p)

pub add_at : Grant → Option Ptr → Cmd Rf (Unit {0})
add_at g none = λ _. fault
add_at g (some p) = do add_device g.entry g.table p; pure tt

-- The device that is read is given to `rfAddDevice`.
unfoldable pub flush : Walk → Cmd Rf Walk
unfolding change add_at alloc_device
flush w = do
  let g = next_grant w.grants
  change w.rd (λ d. record d { ctr = 0 })
  change w.rd (λ d. record d { packet_queue = LinkedList.create g.queue })
  add_at g w.rd
  let left = u8 (w.indev + 255)
  let rest = later_grants w.grants
  if left == 0
      then pure (record w { indev = left })
      else (do rd ← alloc_device rest; pure (record w { indev = left; grants = rest; rd = rd }))

-- `strncpy(interface, text, length)` and the zero behind it.
unfoldable pub put_interface : (interface text : List ℕ) → Cmd Rf (List ℕ)
unfolding before_zero
put_interface interface text =
    if ltb (length text) max_iface_len
    then (do
      let name = before_zero text
      named ← patch interface 0 (name ++ replicate (length text - length name) 0)
      patch named (length text) (0 ∷ []))
    else patch interface 0 (codes "rf0" ++ 0 ∷ [])

abbrev pub with_key : (key iv : List ℕ) → Device → Device
with_key key iv d = record d { key = key; iv = iv }

-- What `EVP_DecodeBlock` makes of the text of a key, `none` for its result -1, which passes for a
-- large length, so that bytes are read that the call need not have written. A key that is too short
-- is replaced.
unfoldable pub put_key : (rd : Option Ptr) → (text : List ℕ) → Option (List ℕ) → Cmd Rf (Unit {0})
unfolding change
put_key rd text none = λ _. fault
put_key rd text (some out) =
    if ltb (length text) (length out)
    then (λ _. fault)
    else if leb 32 (length out)
    then change rd (with_key (span out 0 16) (span out 16 16))
    else change rd (with_key (replicate 16 0xff) (replicate 16 0x00))

-- The keys that the chain of tests knows, in its order.
pub data Key : Type 0 where
  version gateway iface id bcast secret devices : Key

abbrev pub name_of : Key → List ℕ
name_of Key.version = codes "version"
name_of Key.gateway = codes "gateway"
name_of Key.iface = codes "interface"
name_of Key.id = codes "id"
name_of Key.bcast = codes "bcast"
name_of Key.secret = codes "key"
name_of Key.devices = codes "devices"

abbrev pub all_keys : List Key
all_keys =
    Key.version ∷ Key.gateway ∷ Key.iface ∷ Key.id ∷ Key.bcast ∷ Key.secret ∷ Key.devices ∷ []

-- The first key of a list that the token spells.
unfoldable pub which_key : (config : List ℕ) → Token → List Key → Cmd Rf (Option Key)
unfolding json_eq
which_key config t [] = pure none
which_key config t (k ∷ ks) = do
  let rest = which_key config t ks
  hit ← json_eq config t (name_of k)
  if hit then pure (some k) else rest

-- A device ends at the next object and at the last token; `r` is the number of tokens.
abbrev pub ends_device : (r i : ℕ) → Walk → Token → Bool
ends_device r i w t = not (w.indev == 0) && (is_object t.kind || i + 1 == r)

abbrev pub count_down : Walk → Walk
count_down w = if w.ingw == 0 then w else record w { ingw = w.ingw - 1 }

module _ (decode_block : List ℕ → Option (List ℕ)) (key_room : Bool) (gw : Ptr) (config : List ℕ)
    (tokens : List Token) where
  -- The branch of a key, whose token is at `i`; the result has the place of the last token read.
  unfoldable pub take_setting : ℕ → Walk → Option Key → Cmd Rf (ℕ × Walk)
  unfolding token_at text_of change put_interface put_key alloc_device before_zero scan
  take_setting i w none = pure (i, w)
  take_setting i w (some Key.version) = do
    t ← token_at tokens (i + 1)
    text ← text_of config t
    pure (i + 1, record w { version = assigned u16 w.version (scan (before_zero text)) })
  take_setting i w (some Key.gateway) = do
    t ← token_at tokens (i + 1)
    pure (i + 1, record w { ingw = u8 (t.size + 1); rd = some gw })
  take_setting i w (some Key.iface) = do
    t ← token_at tokens (i + 1)
    text ← text_of config t
    named ← put_interface w.interface text
    pure (i + 1, record w { interface = named })
  take_setting i w (some Key.id) = do
    t ← token_at tokens (i + 1)
    text ← text_of config t
    change w.rd (λ d. record d { sn = assigned u32 d.sn (scan (before_zero text)) })
    pure (i + 1, w)
  take_setting i w (some Key.bcast) = do
    t ← token_at tokens (i + 1)
    text ← text_of config t
    change w.rd (λ d. record d { addr = assigned u32 d.addr (scan (before_zero text)) })
    pure (i + 1, w)
  take_setting i w (some Key.secret) = do
    t ← token_at tokens (i + 1)
    text ← text_of config t
    if key_room then put_key w.rd text (decode_block text) else pure tt
    pure (i + 1, w)
  take_setting i w (some Key.devices) = do
    let rest = later_grants w.grants
    rd ← alloc_device rest
    t ← token_at tokens (i + 1)
    pure (i + 2, record w { rd = rd; indev = u8 t.size; grants = rest })

  -- The body of the loop.
  unfoldable pub walk_round : ℕ → Walk → Cmd Rf (ℕ × Walk)
  unfolding token_at flush which_key take_setting
  walk_round i w = do
    let w1 = count_down w
    t ← token_at tokens i
    w2 ← if ends_device (length tokens) i w1 t then flush w1 else pure w1
    k ← which_key config t all_keys
    take_setting i w2 k

  unfoldable pub walk : ℕ → ℕ → Walk → Cmd Rf Walk
  unfolding walk_round
  walk zero i w = λ _. out_of_fuel
  walk (suc k) i w =
      if ltb i (length tokens) then (do (i', w') ← walk_round i w; walk k (i' + 1) w') else pure w

-- What the file gives: nothing if it cannot be opened, or its bytes and whether there is memory.
unfoldable pub config_parse :
    (jsmn : List ℕ → List Token)
    → (decode_block : List ℕ → Option (List ℕ)) → (key_room : Bool) → (file : Option (List ℕ))
    → (room : Bool) → (interface : List ℕ) → (gw : Ptr) → (grants : List Grant)
    → Cmd Rf (ℕ × List ℕ)
unfolding walk
config_parse jsmn decode_block key_room none room interface gw grants = pure (1, interface)
config_parse jsmn decode_block key_room (some config) false interface gw grants =
    pure (2, interface)
config_parse jsmn decode_block key_room (some config) true interface gw grants = do
  let tokens = jsmn config
  w ← walk decode_block key_room gw config tokens (length tokens + 1) 1 (record {
    version = 0;
    ingw = 0;
    indev = 0;
    rd = none;
    interface = interface;
    grants = next_grant [] ∷ grants;
  })
  pure (if w.version == supported_version then 0 else 1, w.interface)
