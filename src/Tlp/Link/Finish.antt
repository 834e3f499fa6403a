-- ===== src/Tlp/Link/Finish.antt =====
-- The clock wait of libsimbus/simbus_pcie_tlp.c when the connection has ended.
use simbus.Base.{
  ℕ, zero, suc, ◌<◌, ◌≡◌, ◌∙◌, refl, ap, true, [], ◌∷◌, arith, length, ltb, negsuc, ok, out_of_fuel,
  and_then, assert, false,
}
use simbus.Wire.{bit_0, bit_1, is_bit}
use simbus.Session.{send_recv, exchange}
use simbus.Session.Reply.{read_reply}
use simbus.Tlp.{Bus, with_socket, on_socket, ready_line, answer, send_ready}
use simbus.Tlp.Link.{Handlers, wait_clk, recv_tlp, send_tlp, next_posedge}

-- The message went out, and nothing else changed.
abbrev told : Bus → Bus
told b = record b { socket = record (b.socket) { sent = ready_line b ∷ b.socket.sent } }

-- At the end of the connection the message is sent, and the result says that the session is over.
send_ready-finished :
    (b : Bus)
    → b.socket.incoming ≡ []
    → length (ready_line b) < 4096
    → send_ready b ≡ ok (negsuc 1) (told b)
unfolding send_ready send_recv read_reply
send_ready-finished b e fits =
    let short : ltb (length (ready_line b)) 4096 ≡ true = ground arith in
    ap
      (λ t.
        and_then (and_then (assert t b) (λ _. on_socket (send_recv 4096 2048 (ready_line b))))
          answer)
      short
    ∙ ap (λ t. and_then (with_socket b (exchange t 4096 2048 (ready_line b) b.socket)) answer) e

ready_line-told : (b : Bus) → ready_line (told b) ≡ ready_line b
unfolding ready_line
ready_line-told b = refl

wait_clk-hangs :
    (fuel : ℕ) (b : Bus)
    → b.user_clk ≡ bit_1
    → b.socket.incoming ≡ []
    → length (ready_line b) < 4096
    → wait_clk fuel bit_1 b ≡ out_of_fuel
unfolding wait_clk
wait_clk-hangs zero b high e fits = refl
wait_clk-hangs (suc fuel) b high e fits =
    ap
      (λ t. elim (is_bit t bit_1) [
        | false ↦ ok tt b
        | true ↦ and_then (send_ready b) (λ _. wait_clk fuel bit_1)
      ])
      high
    ∙ ap (λ t. and_then t (λ _. wait_clk fuel bit_1)) (send_ready-finished b e fits)
    ∙ wait_clk-hangs fuel (told b) high e (rw (ready_line-told b) fits)

-- When the connection has ended while the clock was last seen high, `__pcie_tlp_next_posedge` never
-- returns: with any amount of fuel it runs out, since the result of `send_ready_command` is not
-- looked at. The READY line is assumed to fit its buffer.
pub next_posedge-hangs :
    (h : Handlers) (fuel : ℕ) (b : Bus)
    → b.user_clk ≡ bit_1
    → b.socket.incoming ≡ []
    → length (ready_line b) < 4096
    → next_posedge h fuel b ≡ out_of_fuel
unfolding next_posedge
next_posedge-hangs h zero b high e fits = refl
next_posedge-hangs h (suc fuel) b high e fits =
    ap
      (λ t.
        and_then (and_then t (λ _. wait_clk (suc fuel) bit_0))
          (λ _. recv_tlp h (λ tlp. send_tlp (λ b'. next_posedge h fuel b') fuel tlp)))
      (wait_clk-hangs (suc fuel) b high e fits)
