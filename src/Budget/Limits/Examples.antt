-- ===== src/Budget/Limits/Examples.antt =====
-- A limit of one dollar, met exactly and missed by one micro-cent.
use gatemux.Common.{◌≡◌, ◌≢◌, ◌↔◌, pos}
use gatemux.Budget.Limits.{within, panicked, scope_exceeded}
use gatemux.Budget.Limits.Exact.{HasRoom, scope_exceeded-within, scope_exceeded-ne-panicked}

scope_exceeded-within_example :
    (scope_exceeded (pos 100) (pos 99999999) (pos 1) ≡ within)
    ↔ HasRoom (pos 100) (pos 99999999) (pos 1)
scope_exceeded-within_example = scope_exceeded-within (pos 100) (pos 99999999) (pos 1)

scope_exceeded-ne-panicked_example : scope_exceeded (pos 100) (pos 99999999) (pos 2) ≢ panicked
scope_exceeded-ne-panicked_example = scope_exceeded-ne-panicked (pos 100) (pos 99999999) (pos 2)
