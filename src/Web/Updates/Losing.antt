-- ===== src/Web/Updates/Losing.antt =====
-- A finish whose action cannot be read, and the requests behind it.
use diskless.Base.{list_eq, nat_eq}
use diskless.Config.{Config}
use diskless.Machine.{Machine}
use diskless.Orchestration.Lock
use diskless.Orchestration.Session.{Session}
