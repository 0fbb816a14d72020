-- ===== src/Config.antt =====
-- config/constants.go: the constants of the system, and the codes of a log entry's state.
use pbft_2pc.Prelude.{Int64, String, if◌then◌else◌, ◌==◌, nat_eq, string_eq}

abbrev pub initial_balance : Int64
initial_balance = 10

-- The number of Byzantine nodes that a cluster of 3f+1 tolerates.
abbrev pub f : Int64
f = 1

-- `config.States[name]`: an unknown name reads as 0.
abbrev pub states : String → Int64
states name =
    if name == "pre-prepared"
    then 1
    else if name == "prepared"
    then 2
    else if name == "committed"
    then 3
    else if name == "pexecuted"
    then 4
    else if name == "executed"
    then 5
    else 0

-- `config.IntToStates[code]`: an unknown code reads as "".
abbrev pub int_to_states : Int64 → String
int_to_states code =
    if code == 1
    then "PP"
    else if code == 2
    then "P"
    else if code == 3
    then "C"
    else if code == 4
    then "PE"
    else if code == 5
    then "E"
    else ""
