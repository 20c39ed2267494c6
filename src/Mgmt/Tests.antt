-- ===== src/Mgmt/Tests.antt =====
-- Commands of the management port at concrete texts.
use lfgateway.Base.{◌≡◌, refl}
use lfgateway.Base.Text.{codes, starts_with}
use lfgateway.Mgmt.{dispatch, health}

health_command : dispatch (codes "HEALTH\n") ≡ health
unfolding dispatch starts_with
health_command = refl
