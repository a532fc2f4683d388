-- ===== src/RouteTables/Flushed.antt =====
-- When flushing the routes of an interface makes the map forget its table.
use system_netd.Prelude.Keys.{name_key}
use system_netd.Containers.Map.{Map}
