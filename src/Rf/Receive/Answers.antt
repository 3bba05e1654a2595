-- ===== src/Rf/Receive/Answers.antt =====
-- What `rfRecvThread` is to answer, and what its statements make of the request.
use rf_gateway.Base.{
  ℕ, ◌+◌, ◌≤◌, ◌≡◌, refl, true, false, Bool-cases, Option-cases, inl, inr, some, List, [], ◌∷◌,
  ◌++◌, arith, if◌then◌else◌, ok, pure, Ptr, length, get_or, get_or_ext, get_or-span, length-span,
  leb, leb→le, replicate, bytes32, span, splice, length-splice, patch, slice-ok, bit_or, ◌∙◌, sym,
  zero, suc,
}
use rf_gateway.Crypto.{Evp, decrypt_packet}
use rf_gateway.LinkedList
use rf_gateway.LinkedList.{Handle}
use rf_gateway.Rf.{Rf, Device, i_src, i_ctrl, i_ctr, is_secret, max_packet_len, put_coded}
use rf_gateway.Rf.Receive.{
  answer, fill_answer, poll_answer, unprotect, c_discover, c_read_reg, c_write_reg, c_notify,
  c_poll, c_discover_resp, c_rw_resp, c_ack,
}
use rf_gateway.Rf.Receive.Round.{blank, answered}

pub length-patch :
    (buf : List ℕ) (off : ℕ) (bytes out : List ℕ) (w w' : Rf)
    → patch buf off bytes w ≡ ok out w'
    → length out ≡ length buf
unfolding patch
length-patch buf off bytes out w w' e = elim (Bool-cases (leb (off + length bytes) (length buf))) [
  | inl fits ↦
      let same : splice buf off bytes ≡ out = cc in
      rw (sym same) (length-splice buf off bytes (leb→le _ _ fits))
  | inr over ↦ cc
]

-- Decryption keeps the size of the buffer.
pub length-unprotect :
    (evp : Evp) (d : Device) (rx opened : List ℕ) (w w' : Rf)
    → length rx ≡ max_packet_len
    → unprotect evp d rx w ≡ ok opened w'
    → length opened ≡ max_packet_len
unfolding unprotect put_coded
length-unprotect evp d rx opened w w' room e = elim (Bool-cases (is_secret rx)) [
  | inl hidden ↦
      let e' = rw (hidden, slice-ok rx i_ctr 16 w (omega (arith, room))) at e in
      elim (Option-cases (decrypt_packet evp (span rx i_ctr 16) d.key d.iv)) [
        | inl without ↦ let e'' = rw without at e' in cc
        | inr (c, got) ↦
            let e'' = rw got at e' in length-patch rx i_ctr c.out opened w w' e'' ∙ room
      ]
  | inr plain ↦ let same : rx ≡ opened = cc in rw (sym same) room
]

-- The first four bytes of a frame, behind its destination.
pub source-bytes :
    (rx : List ℕ)
    → length rx ≡ max_packet_len
    → span rx i_src 4 ≡ get_or rx 4 0 ∷ get_or rx 5 0 ∷ get_or rx 6 0 ∷ get_or rx 7 0 ∷ []
source-bytes rx room =
    get_or_ext 0 (span rx i_src 4)
      (get_or rx 4 0 ∷ get_or rx 5 0 ∷ get_or rx 6 0 ∷ get_or rx 7 0 ∷ [])
      (length-span rx i_src 4 (omega (arith, room))) λ i lt. at i
  where
    at :
        (i : ℕ)
        → get_or (span rx i_src 4) i 0
          ≡ get_or (get_or rx 4 0 ∷ get_or rx 5 0 ∷ get_or rx 6 0 ∷ get_or rx 7 0 ∷ []) i 0
    at zero = get_or-span rx i_src 4 0
    at (suc zero) = get_or-span rx i_src 4 1
    at (suc (suc zero)) = get_or-span rx i_src 4 2
    at (suc (suc (suc zero))) = get_or-span rx i_src 4 3
    at (suc (suc (suc (suc i)))) = get_or-span rx i_src 4 (suc (suc (suc (suc i)))) ∙ ground arith

-- A response: to the source of the request, from the gateway, with the request's counter marked and
-- its encryption bit, a command, a length and four bytes of a constant.
abbrev pub reply : Device → List ℕ → (code len value : ℕ) → List ℕ
reply g rx code len value =
    get_or rx 4 0
    ∷ get_or rx 5 0
    ∷ get_or rx 6 0
    ∷ get_or rx 7 0
    ∷ (bytes32 g.addr
        ++ ((if is_secret rx then 0x80 else 0)
            ∷ bit_or (get_or rx i_ctr 0) 0x80
            ∷ 0
            ∷ code
            ∷ len
            ∷ value
            ∷ value
            ∷ value
            ∷ value
            ∷ replicate 239 0))

-- The command, the length and the constant that answer a command from `d`: a poll is answered
-- here when the queue is empty.
pub data Answers (d : Device) : (cmd code len value : ℕ) → Type 0 where
  discover : Answers d c_discover c_discover_resp 4 0x11
  read_reg : Answers d c_read_reg c_rw_resp 4 0x22
  write_reg : Answers d c_write_reg c_rw_resp 4 0x33
  notify : Answers d c_notify c_ack 4 0x44
  poll :
      (q : Handle)
      → d.packet_queue ≡ some q
      → LinkedList.empty q ≡ true
      → Answers d c_poll c_ack 0 0

pub addressee :
    (g : Device) (a b c e : ℕ) (w : Rf)
    → patch (blank g) 0 (a ∷ b ∷ c ∷ e ∷ []) w
      ≡ ok (a ∷ b ∷ c ∷ e ∷ (bytes32 g.addr ++ replicate 248 0)) w
unfolding patch splice
addressee g a b c e w = refl

-- The response buffer with its header up to the control byte, from the next one on `rest`.
abbrev pub head : Device → List ℕ → List ℕ → List ℕ
head g rx rest =
    get_or rx 4 0
    ∷ get_or rx 5 0
    ∷ get_or rx 6 0
    ∷ get_or rx 7 0
    ∷ (bytes32 g.addr ++ ((if is_secret rx then 0x80 else 0) ∷ rest))

pub marked :
    (g : Device) (rx : List ℕ) (w : Rf)
    → (let tx =
            get_or rx 4 0
            ∷ get_or rx 5 0
            ∷ get_or rx 6 0
            ∷ get_or rx 7 0
            ∷ (bytes32 g.addr ++ replicate 248 0) in
          if is_secret rx then patch tx i_ctrl (0x80 ∷ []) else pure tx)
        w
      ≡ ok (head g rx (replicate 247 0)) w
unfolding patch splice
marked g rx w = elim (Bool-cases (is_secret rx)) [
  | inl hidden ↦ rw hidden refl
  | inr plain ↦ rw plain refl
]

pub answer-silent :
    (cmd : ℕ) (dev : Ptr) (d : Device) (tx : List ℕ) (w : Rf)
    → answered cmd ≡ false
    → answer cmd dev d tx w ≡ ok (tx, false) w
unfolding answer
answer-silent cmd dev d tx w silent = ground arith

pub answer-reply :
    {cmd code len value : ℕ} (dev : Ptr) (g d : Device) (rx : List ℕ) (w : Rf)
    → Answers d cmd code len value
    → answer cmd dev d (head g rx (replicate 247 0)) w
      ≡ ok
          (head g rx (0 ∷ 0 ∷ code ∷ len ∷ value ∷ value ∷ value ∷ value ∷ replicate 239 0), true)
          w
unfolding answer fill_answer poll_answer patch splice
answer-reply dev g d rx w discover = refl
answer-reply dev g d rx w read_reg = refl
answer-reply dev g d rx w write_reg = refl
answer-reply dev g d rx w notify = refl
answer-reply dev g d rx w (poll q has idle) = rw (has, idle) refl

pub count-reply :
    (g : Device) (rx : List ℕ) (code len value c : ℕ) (w : Rf)
    → (let rest = 0 ∷ code ∷ len ∷ value ∷ value ∷ value ∷ value ∷ replicate 239 0 in
        patch (head g rx (0 ∷ rest)) i_ctr (c ∷ []) w ≡ ok (head g rx (c ∷ rest)) w)
unfolding patch splice
count-reply g rx code len value c w = refl

pub len-small : {d : Device} {cmd code len value : ℕ} → Answers d cmd code len value → len ≤ 241
len-small discover = omega arith
len-small read_reg = omega arith
len-small write_reg = omega arith
len-small notify = omega arith
len-small (poll q has idle) = omega arith
