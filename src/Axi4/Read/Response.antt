-- ===== src/Axi4/Read/Response.antt =====
-- The wait for the response in the reads of libsimbus/simbus_axi4_read.c.
use simbus.Base.{
  or-true, ℕ, suc, ◌≡◌, ◌∙◌, ap, false, true, if◌then◌else◌, ◌&&◌, ◌||◌, ok, and_then, Cmd,
}
use simbus.Wire.{bit_0, bit_1, is_bit}
use simbus.Axi4.{Bus}
use simbus.Axi4.Write.{cleared_address, resp_code}
use simbus.Wire.Words.{take_word}
use simbus.Axi4.Read.{Capture, check_address, take_data, read_loop}

-- The bus after the address and the response have been transferred.
abbrev pub finished_read : Bus → Bus
finished_read c = record c { ar = cleared_address; rready = bit_0 }

transfers :
    (n base : ℕ) (got : Capture) (c : Bus)
    → (is_bit c.ar.valid bit_1 && is_bit c.arready bit_1) ≡ true
    → (is_bit c.rready bit_1 && is_bit c.rvalid bit_1) ≡ true
    → take_data n base got (check_address c)
      ≡ (record { word = take_word n 0 base c.rdata 0; code = resp_code c.rresp }, finished_read c)
unfolding check_address take_data
transfers n base got c address response =
    let c₁ = record c { ar = cleared_address } in
    ap (λ t. take_data n base got (if t then c₁ else c)) address
    ∙ ap
        (λ t.
          if t
          then (
            record { word = take_word n 0 base c.rdata 0; code = resp_code c.rresp },
            record c₁ { rready = bit_0 },
          )
          else (got, c₁))
        response

abbrev next_round : Cmd Bus (Unit {0}) → ℕ → ℕ → ℕ → Capture → Unit {0} → Cmd Bus Capture
next_round clock fuel n base got u b' =
    let (got₂, b₂) = take_data n base got (check_address b') in read_loop clock fuel n base got₂ b₂

-- A slave that takes the address and gives its response in the first clock ends the read after that
-- clock: the word is the one on the data lanes from bit `base` on, the response code is that of
-- RRESP, and neither channel is active.
read_loop-prompt :
    (clock : Cmd Bus (Unit {0})) (fuel n base : ℕ) (got : Capture) (b c : Bus)
    → is_bit b.rready bit_1 ≡ true
    → clock b ≡ ok tt c
    → (is_bit c.ar.valid bit_1 && is_bit c.arready bit_1) ≡ true
    → (is_bit c.rready bit_1 && is_bit c.rvalid bit_1) ≡ true
    → read_loop clock (suc (suc fuel)) n base got b
      ≡ ok
          (record { word = take_word n 0 base c.rdata 0; code = resp_code c.rresp })
          (finished_read c)
unfolding read_loop
read_loop-prompt clock fuel n base got b c ready clocked address response =
    ap
      (λ t. elim t [
        | false ↦ ok got b
        | true ↦ and_then (clock b) (next_round clock (suc fuel) n base got)
      ])
      (ap (λ t. is_bit b.ar.valid bit_1 || t) ready ∙ or-true (is_bit b.ar.valid bit_1))
    ∙ ap (λ r. and_then r (next_round clock (suc fuel) n base got)) clocked
    ∙ ap (λ q. read_loop clock (suc fuel) n base (q.0) (q.1))
        (transfers n base got c address response)
