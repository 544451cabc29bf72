-- ===== src/Client/Log/Levels.antt =====
-- log.go: a level prints what is at least as severe.
use libmqtt.Prelude.{ℕ, ◌≡◌, arith, true}
use libmqtt.Client.Log
use libmqtt.Client.Log.{new_logger}

-- A logger that prints something prints everything that is more severe.
pub new_logger-severe :
    (l : ℕ)
    → (Log.v (new_logger l) ≡ true → Log.d (new_logger l) ≡ true)
      × (Log.d (new_logger l) ≡ true → Log.i (new_logger l) ≡ true)
      × (Log.i (new_logger l) ≡ true → Log.w (new_logger l) ≡ true)
      × (Log.w (new_logger l) ≡ true → Log.e (new_logger l) ≡ true)
unfolding new_logger Log.v Log.d Log.i Log.w Log.e
new_logger-severe l = ground arith
