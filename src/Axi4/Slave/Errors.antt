-- ===== src/Axi4/Slave/Errors.antt =====
-- The response codes that libsimbus/simbus_axi4_slave.c puts on the wires, as the master of
-- libsimbus/simbus_axi4_write.c reads them.
use simbus.Base.{◌≡◌, refl, List, [], ◌∷◌, length, arith}
use simbus.Wire.{Bit, chars_msb_first, fill_msb_first, bitval_to_char, char_to_bitval}
use simbus.Axi4.Write.{Resp, resp_okay, resp_exokay, resp_slverr, resp_decerr, resp_code}
use simbus.Axi4.Slave.Machine.{resp_bits}

-- The code without its second bit.
abbrev pub low_code : Resp → Resp
low_code resp_okay = resp_okay
low_code resp_exokay = resp_exokay
low_code resp_slverr = resp_okay
low_code resp_decerr = resp_exokay

-- The response code that the master reads from the two characters that the slave sends is the code of
-- the device without its second bit: SLVERR arrives as OKAY, and DECERR as EXOKAY.
pub resp_code-resp_bits :
    (r : Resp) (old : List Bit)
    → length old ≡ 2
    → resp_code (fill_msb_first (chars_msb_first (resp_bits r) 2) old) ≡ low_code r
unfolding resp_code fill_msb_first chars_msb_first resp_bits bitval_to_char char_to_bitval
resp_code-resp_bits r [] len = absurd (omega arith)
resp_code-resp_bits r (a ∷ []) len = absurd (omega arith)
resp_code-resp_bits resp_okay (a ∷ b ∷ []) len = refl
resp_code-resp_bits resp_exokay (a ∷ b ∷ []) len = refl
resp_code-resp_bits resp_slverr (a ∷ b ∷ []) len = refl
resp_code-resp_bits resp_decerr (a ∷ b ∷ []) len = refl
resp_code-resp_bits r (a ∷ b ∷ c ∷ old) len = absurd (omega arith)
