-- ===== src/Base/Memory.antt =====
-- Objects of one struct type at addresses.
use Prim.Native.Nat.{ℕ}
use mathlib.Core.Path.{◌≡◌, fun_ext}
use mathlib.Core.Logic.{◌≢◌}
use mathlib.Core.Option.{Option, none, some}
use mathlib.Core.Bool.{false}
use native.Mathlib.Omega.{arith}
use rf_gateway.Base.Tests.{◌==◌, if◌then◌else◌}
use rf_gateway.Base.Command.{ok, fault, Cmd, ◌>>=◌, ◌>>◌}

abbrev pub Ptr : Type 0
Ptr = ℕ

abbrev pub null : Ptr
null = 0

abbrev pub Heap : Type 0 → Type 0
Heap N = Ptr → Option N

module _ {N : Type 0} where
  unfoldable pub write : Heap N → Ptr → Option N → Heap N
  write h p c a = if a == p then c else h a

  -- The raw write: `some n` fills an address that `malloc` gave.
  abbrev pub store : Ptr → Option N → Cmd (Heap N) (Unit {0})
  store p c h = ok tt (write h p c)

  -- `*p`
  unfoldable pub load : Ptr → Cmd (Heap N) N
  load p h = if p == null then fault else elim (h p) [ none ↦ fault | some n ↦ ok n h ]

  -- `p->field = …`
  unfoldable pub modify : Ptr → (N → N) → Cmd (Heap N) (Unit {0})
  unfolding load
  modify p f = do n ← load p; store p (some (f n))

  unfoldable pub free : Ptr → Cmd (Heap N) (Unit {0})
  unfolding load
  free p = load p >> store p none

  -- `p` is the address of a live object `n`.
  pub record Points (h : Heap N) (p : Ptr) (n : N) : Type 0 where
    pub ne_null : p ≢ null
    pub holds : h p ≡ some n

  module _ {h : Heap N} {p : Ptr} {n : N} (e : Points h p n) where
    pub Points-not_null : (p == null) ≡ false
    Points-not_null = ground (arith, e.ne_null)

    pub load-ok : load p h ≡ ok n h
    unfolding load
    load-ok = rw (Points-not_null, e.holds)

    pub modify-ok : (f : N → N) → modify p f h ≡ ok tt (write h p (some (f n)))
    unfolding modify
    modify-ok f = rw (Points-not_null, e.holds)

    pub free-ok : free p h ≡ ok tt (write h p none)
    unfolding free
    free-ok = rw (Points-not_null, e.holds)

  pub Points-write : (h : Heap N) {p : Ptr} (n : N) → p ≢ null → Points (write h p (some n)) p n
  unfolding write
  Points-write h n ne = record { ne_null = ne; holds = ground arith }

  pub Points-write_ne :
      {h : Heap N} {p q : Ptr} {n : N} (c : Option N)
      → Points h p n
      → p ≢ q
      → Points (write h q c) p n
  unfolding write
  Points-write_ne c e ne = record { ne_null = e.ne_null; holds = ground (arith, e.holds) }

  pub write-write :
      (h : Heap N) (p : Ptr) (c c' : Option N) → write (write h p c) p c' ≡ write h p c'
  unfolding write
  write-write h p c c' = fun_ext λ a. ground arith
