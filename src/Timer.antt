-- ===== src/Timer.antt =====
-- node/timer.go: the timer whose expiry starts a view change.
use pbft_2pc.Prelude.{Bool, true, false, Option, none, some, ◌&&◌}

-- `timer` is the `time.Timer` once one was made, and whether it is running; `timer_started` is the
-- flag that the code keeps.
pub record Timer : Type 0 where
  pub timer : Option Bool
  pub timer_started : Bool

unfoldable pub new_timer : Timer
new_timer = record { timer = none; timer_started = false }

unfoldable pub start_or_reset : Timer → Timer
start_or_reset t = record { timer = some true; timer_started = true }

unfoldable pub start_if_not_running : Timer → Timer
start_if_not_running t = elim t.timer_started [
  | true ↦ t
  | false ↦ record { timer = some true; timer_started = true }
]

unfoldable pub stop : Timer → Timer
stop t = record {
  timer = elim t.timer [ none ↦ none | some running ↦ some false ];
  timer_started = false;
}

-- The test of `startMonitoringTimer`: does it look at the channel of the timer?
unfoldable pub is_watched : Timer → Bool
is_watched t = t.timer_started && elim t.timer [ none ↦ false | some running ↦ true ]
