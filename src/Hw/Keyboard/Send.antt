-- ===== src/Hw/Keyboard/Send.antt =====
-- What send of src/hw/ps2keyboard.cpp returns.
use cantos.Prelude.{
  ℕ, ◌≡◌, ◌≢◌, refl, inl, inr, false, List, [], ◌∷◌, none, some, ◌==◌, if◌then◌else◌, arith,
  Bool-cases,
}
use cantos.Hw.Keyboard.{
  Keyboard, pass, resend, handle, handle_input, handle_key, handle_code, is_reply, send_loop, send,
}

handle_key-last_input : (b : ℕ) (k : Keyboard) → (handle_key b k).last_input ≡ k.last_input
unfolding handle_key handle_code
handle_key-last_input b k = ground arith

-- Once a reply is there, no further byte replaces it.
handle-last_input :
    (b r : ℕ) (k : Keyboard) → k.last_input ≡ some r → (handle b k).last_input ≡ some r
unfolding handle handle_input
handle-last_input b r k there = elim (Bool-cases (b == pass)) [
  | inl passed ↦ rw passed there
  | inr other ↦ rw other (
      rw there (elim (Bool-cases (is_reply b)) [
        | inl reply ↦ rw reply refl
        | inr key ↦ rw key (
            handle_key-last_input (if b == 0x83 then 0x02 else b)
              (record k { last_input = some r }))
      ]))
]

send_loop-resend :
    (bs : List ℕ) (k : Keyboard) → k.last_input ≡ some resend → send_loop bs k (some resend) ≡ none
unfolding send_loop
send_loop-resend [] k there = refl
send_loop-resend (b ∷ bs) k there =
    rw (handle-last_input b resend k there)
      (send_loop-resend bs (handle b k) (handle-last_input b resend k there))

send_loop-reply :
    (r : ℕ) (bs : List ℕ) (k : Keyboard) → r ≢ resend → send_loop bs k (some r) ≡ some (r, k)
unfolding send_loop
send_loop-reply r [] k h = let e : (r == resend) ≡ false = ground arith in rw e refl
send_loop-reply r (b ∷ bs) k h = let e : (r == resend) ≡ false = ground arith in rw e refl

-- send returns the first byte that arrives and is not PASS, whatever arrives behind it, unless
-- that byte is RESEND: then it does not return, whatever arrives, since no byte replaces the reply.
pub send_lem :
    (r : ℕ) (bs : List ℕ) (k : Keyboard)
    → r ≢ pass
    → send (r ∷ bs) k ≡ (if r == resend then none else some (r, record k { last_input = some r }))
unfolding send send_loop handle handle_input
send_lem r bs k h =
    let not_pass : (r == pass) ≡ false = ground arith in
    rw not_pass (elim (Bool-cases (r == resend)) [
      | inl again ↦
          let r_is : r ≡ resend = ground arith in
          rw (again, r_is) (send_loop-resend bs (record k { last_input = some resend }) refl)
      | inr reply ↦
          rw reply (send_loop-reply r bs (record k { last_input = some r }) (ground arith))
    ])
