-- ===== src/Packets/Clone.antt =====
-- pkt_conn.go, `clone` of a connect packet and of its properties.
use libmqtt.Prelude.{Option, none, some, Result, ok, panic, ◌>>=◌}
use libmqtt.Props.Conn.{ConnProps}
use libmqtt.Packets.Types.{ConnPacket}

-- The read lock is released where it was not taken, which ends the program.
unfoldable pub clone_props : Option ConnProps → Result (Option ConnProps)
clone_props none = ok none
clone_props (some p) = panic

-- The will's properties are not copied.
unfoldable pub clone : ConnPacket → Result ConnPacket
clone c = do props ← clone_props c.props; ok (record c { will_props = none; props = props })
