-- ===== src/Policy/Ewmh/Tests.antt =====
-- Desktop numbers of a set-up with ten workspaces on each monitor.
use lwm.Base.{◌≡◌, some, arith}
use lwm.Policy.Ewmh.{desktop_index, desktop_to_indices}
use lwm.Policy.Ewmh.RoundTrip.{desktop_to_indices-desktop_index}

desktop_to_indices-desktop_index_example :
    desktop_to_indices (desktop_index 2 3 10) 10 ≡ some (2, 3)
desktop_to_indices-desktop_index_example =
    desktop_to_indices-desktop_index 2 3 10 (omega arith) (omega arith)
