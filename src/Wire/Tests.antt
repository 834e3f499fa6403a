-- ===== src/Wire/Tests.antt =====
-- Runs of the signal tokens and time tokens of libsimbus/simbus.c, and the theorems about them at
-- concrete inputs.
use simbus.Base.{◌≡◌, refl, some, none, List, [], ◌∷◌, arith, negsuc}
use simbus.Wire.{Bit, bit_0, bit_1, bit_x, bit_z, ready_signal}
use simbus.Wire.Time.{Time, print_time, parse_time_token}
use simbus.Wire.Time.RoundTrip.{parse_time_token-print_time}
use simbus.Session.Text.{codes}

abbrev four : List Bit
four = bit_1 ∷ bit_0 ∷ bit_z ∷ bit_x ∷ []

abbrev blank : List Bit
blank = bit_x ∷ bit_x ∷ bit_x ∷ bit_x ∷ []

ready_signal-four : ready_signal (codes "AD") four 4 ≡ codes " AD=xz01"
unfolding ready_signal
ready_signal-four = refl

abbrev nanosecond : Time
nanosecond = record { mant = 125; exp = negsuc 8 }

print_time-nanosecond : print_time nanosecond ≡ codes "125e-9"
unfolding print_time
print_time-nanosecond = refl

parse_time_token-plain : parse_time_token (codes "30") ≡ none
unfolding parse_time_token
parse_time_token-plain = refl

parse_time_token_example : parse_time_token (print_time nanosecond) ≡ some nanosecond
parse_time_token_example = parse_time_token-print_time nanosecond (omega arith) (omega arith)
