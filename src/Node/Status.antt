-- ===== src/Node/Status.antt =====
-- The replica statuses of src/proxynode/proxy_protocol.h.
use kunlun.Prelude.{ℕ}

abbrev pub init : ℕ
init = 0

abbrev pub online : ℕ
online = 1

abbrev pub wait_sync : ℕ
wait_sync = 2

abbrev pub copy_src : ℕ
copy_src = 3

abbrev pub move_src : ℕ
move_src = 4

abbrev pub active : ℕ
active = 5

abbrev pub offline : ℕ
offline = 6
