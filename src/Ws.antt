-- ===== src/Ws.antt =====
-- ws.c: the server of the browsers. Its state, the thread that accepts connections, and what the
-- thread of one connection works on.
pub mod Handshake
pub mod Frame
pub mod Connection
pub mod Accept
use rf_gateway.Base.{
  ℕ, ◌+◌, Bool, true, false, Option, none, some, List, [], ◌∷◌, ◌++◌, Run, ok, fault, out_of_fuel,
  Cmd,
}
use rf_gateway.Rf.{Rf}

abbrev pub ws_buffer_size : ℕ
ws_buffer_size = 262144

-- `Ws_t`, with the descriptors given to `close`.
pub record Ws : Type 0 where
  pub sock : Option ℕ
  pub run : Bool
  pub closed : List ℕ

-- `socket` gives a descriptor or fails, `bind` and `listen` succeed or not.
abbrev pub init : (socket : Option ℕ) (binds listens : Bool) → Ws → ℕ × Ws
init none binds listens ws = (1, record ws { sock = none })
init (some fd) false listens ws = (1, record ws { sock = some fd; closed = ws.closed ++ fd ∷ [] })
init (some fd) true false ws = (3, record ws { sock = some fd; closed = ws.closed ++ fd ∷ [] })
init (some fd) true true ws = (0, record ws { sock = some fd; run = true })

-- The descriptors that a call of `close` closes: a negative one is refused by the kernel.
abbrev pub closable : Option ℕ → List ℕ
closable none = []
closable (some fd) = fd ∷ []

abbrev pub de_init : Ws → ℕ × Ws
de_init ws = (0, record ws { run = false; closed = ws.closed ++ closable ws.sock })

-- What the thread of a connection reaches: the gateway, the bytes that `malloc` gave for `buffer`, what
-- was given to `write` on the connection, in order, and the descriptors given to `close`.
pub record Client : Type 0 where
  pub rf : Rf
  pub buffer : List ℕ
  pub written : List (List ℕ)
  pub closed : List ℕ

module _ {A : Type 0} where
  pub in_rf_result : Client → Run Rf A → Run Client A
  in_rf_result c (ok a w) = ok a (record c { rf = w })
  in_rf_result c fault = fault
  in_rf_result c out_of_fuel = out_of_fuel

  unfoldable pub in_rf : Cmd Rf A → Cmd Client A
  unfolding in_rf_result
  in_rf m c = in_rf_result c (m c.rf)

-- The buffer now, and the buffer after a write to it.
abbrev pub buffer : Cmd Client (List ℕ)
buffer c = ok c.buffer c

abbrev pub keep : List ℕ → Cmd Client (Unit {0})
keep bytes c = ok tt (record c { buffer = bytes })

-- `write(sockfd, bytes, length)`
abbrev pub write_out : List ℕ → Cmd Client (Unit {0})
write_out bytes c = ok tt (record c { written = c.written ++ bytes ∷ [] })
