-- ===== src/Netspeeds/Rate.antt =====
-- The number that `netspeed_rx` of components/netspeeds.c prints.
use slstatus.Prelude.Text.{Text}
use slstatus.Util.Float.{Float}
