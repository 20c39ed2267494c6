-- ===== src/Gateway/Start/Tests.antt =====
-- What the start gives.
use lfgateway.Base.{arith}
use lfgateway.Gateway.Start.Sample.{outside, application, builds}
use lfgateway.Gateway.Start.Ready.{IsReady, construct-IsReady}

construct-IsReady_example : IsReady outside application
construct-IsReady_example = construct-IsReady outside (omega arith) (omega arith) builds
