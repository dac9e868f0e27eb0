-- ===== src/Vcd/Guard/Session.antt =====
-- Sequences of requests to the client of pkg/vcd-client/client.go, against the guards.
use vcd_csi.Cloud.{Cloud}
use vcd_csi.Vcd.Units.Laws.{IsOrder}
use vcd_csi.Vcd.Session.{Request, attach}

-- An attach ranges over the units in an order of the map.
abbrev pub IsOrdered : Request → Type 0
IsOrdered (attach visit vm name) = IsOrder visit.units
IsOrdered _ = Unit
