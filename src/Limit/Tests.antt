-- ===== src/Limit/Tests.antt =====
-- The theorems on allowances at a server with six left of its ten, and an organization with three.
use camelmailer.Base.{◌≡◌, ◌&&◌, some, pos}
use camelmailer.Limit.{server_allowance, organization_allowance, stricter, allows}
use camelmailer.Limit.Laws.{allows-stricter}

allows-stricter_run :
    allows
      (stricter
        (server_allowance (some (pos 10)) (pos 4))
        (organization_allowance (some (pos 100)) (pos 97)))
      (pos 5)
    ≡ (allows (server_allowance (some (pos 10)) (pos 4)) (pos 5)
        && allows (organization_allowance (some (pos 100)) (pos 97)) (pos 5))
allows-stricter_run =
    allows-stricter (server_allowance (some (pos 10)) (pos 4))
      (organization_allowance (some (pos 100)) (pos 97)) (pos 5)
