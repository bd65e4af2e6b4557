-- ===== src/Daemon/Pipeline.antt =====
-- What a request's records become: each is answered for, and no token of theirs is lost before the queue.
use desktop_client.Counters
use desktop_client.Queue.{Queue}
use desktop_client.Daemon.{Daemon}
