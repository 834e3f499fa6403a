-- ===== src/Session/Reply.antt =====
-- How every client of libsimbus reads the tokens of a response: an empty or FINISH response ends
-- the session, any other must be UNTIL, a time, and <name>=<value> fields.
use simbus.Base.{ℕ, ◌==◌, if◌then◌else◌, Option, none, some, List, [], ◌∷◌, same_text}
use simbus.Session.{Token}
use simbus.Session.Text.{codes}
use simbus.Wire.Time.{Time, parse_time_token}

abbrev pub Field : Type 0
Field = List ℕ × List ℕ

pub data Reply : Type 0 where
  finished : Reply
  until : Time → List Field → Reply

-- cp = strchr(arg, '='); assert(cp); *cp++ = 0
unfoldable pub split_field : Token → Option Field
split_field [] = none
split_field (c ∷ cs) =
    let rest = split_field cs in
    if c == b'='
    then some ([], cs)
    else elim rest [ none ↦ none | some (name, value) ↦ some (c ∷ name, value) ]

unfoldable pub split_fields : List Token → Option (List Field)
unfolding split_field
split_fields [] = some []
split_fields (t ∷ ts) = elim (split_field t) [
  | none ↦ none
  | some field ↦ elim (split_fields ts) [ none ↦ none | some fields ↦ some (field ∷ fields) ]
]

-- `argv[1]` is null when there is no time.
unfoldable pub read_until : List Token → Option Reply
unfolding split_fields
read_until [] = none
read_until (t ∷ args) = elim (parse_time_token t) [
  | none ↦ none
  | some time ↦ elim (split_fields args) [ none ↦ none | some fs ↦ some (until time fs) ]
]

unfoldable pub read_reply : List Token → Option Reply
unfolding read_until
read_reply [] = some finished
read_reply (command ∷ args) =
    if same_text command (codes "FINISH")
    then some finished
    else if same_text command (codes "UNTIL")
    then read_until args
    else none
