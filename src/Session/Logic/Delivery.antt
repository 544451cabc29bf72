-- ===== src/Session/Logic/Delivery.antt =====
-- client_conn.go, client_async.go and router.go: from the bytes of a connection to the handlers of a topic.
use libmqtt.Util.Bytes.{Bytes}
use libmqtt.Session.{Session}
