-- ===== src/Time.antt =====
-- The units of src/ia_time.h, in nanoseconds.
use ioarena.Base.{ℕ}

abbrev pub us : ℕ
us = 1000

abbrev pub ms : ℕ
ms = 1000000

abbrev pub s : ℕ
s = 1000000000
