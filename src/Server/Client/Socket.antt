-- ===== src/Server/Client/Socket.antt =====
-- A line of words that `read_from_socket` of server/client.cc takes from the socket as a whole.
use simbus.Base.{ℕ, ◌<◌, ◌≡◌, refl, ◌∙◌, List, [], ◌∷◌, arith, length, ok, and_then}
use simbus.Session.{Token}
use simbus.Session.Lines.{join, take-all, drop-all}
use simbus.Server.Client.{Client, Input, bytes, process_command}
use simbus.Server.Client.Reading.{
  split_line, process_line, take_bytes, receive_input, read_from_socket,
}
use simbus.Server.Client.Words.{AllWords, words-join, split_line-join}

process_line-join :
    (ws : List Token) (c : Client)
    → AllWords ws
    → length ws < 2048
    → process_line (split_line (join ws (10 ∷ []))) c
      ≡ process_command ws (record c { buffer = [] })
unfolding process_line
process_line-join ws c all few =
    rw (split_line-join ws [] all, process_line) (rw (words-join 2048 ws all few) refl)

take_bytes-join :
    (ws : List Token) (c : Client)
    → AllWords ws
    → length ws < 2048
    → c.buffer ≡ []
    → length (join ws (10 ∷ [])) < 4096
    → take_bytes 4095 (join ws (10 ∷ [])) c
      ≡ and_then (process_command ws (record c { buffer = [] })) (λ u. ok [])
unfolding take_bytes
take_bytes-join ws c all few empty fits =
    let line = join ws (10 ∷ []) in
    rw (take-all 4095 line (omega arith), drop-all 4095 line (omega arith))
      (rw empty (rw (process_line-join ws (record c { buffer = line }) all few) refl))

receive_input-bytes :
    (trans b : ℕ) (w : List ℕ) (ws : List Token) (c : Client)
    → receive_input trans (bytes (join ((b ∷ w) ∷ ws) (10 ∷ []))) c
      ≡ take_bytes trans (join ((b ∷ w) ∷ ws) (10 ∷ [])) c
unfolding receive_input
receive_input-bytes trans b w [] c = refl
receive_input-bytes trans b w (v ∷ ws) c = refl

read_from_socket-empty :
    (input : Input) (c : Client)
    → c.buffer ≡ []
    → read_from_socket input c ≡ receive_input 4095 input c
unfolding read_from_socket
read_from_socket-empty input c empty = ground (arith, empty)

-- The command of the line runs, and nothing is left in the buffer.
pub read_from_socket-join :
    (b : ℕ) (w : List ℕ) (ws : List Token) (c : Client)
    → AllWords ((b ∷ w) ∷ ws)
    → length ws < 2047
    → c.buffer ≡ []
    → length (join ((b ∷ w) ∷ ws) (10 ∷ [])) < 4096
    → read_from_socket (bytes (join ((b ∷ w) ∷ ws) (10 ∷ []))) c
      ≡ and_then (process_command ((b ∷ w) ∷ ws) (record c { buffer = [] })) (λ u. ok [])
read_from_socket-join b w ws c all few empty fits =
    read_from_socket-empty (bytes (join ((b ∷ w) ∷ ws) (10 ∷ []))) c empty
    ∙ receive_input-bytes 4095 b w ws c
    ∙ take_bytes-join ((b ∷ w) ∷ ws) c all (omega arith) empty fits
