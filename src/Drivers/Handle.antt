-- ===== src/Drivers/Handle.antt =====
-- A pointer that a driver of src/drivers keeps to an object of its engine.
use ioarena.Base.{Bool, true, false}

pub data Handle : Type 0 where
  null valid freed : Handle

-- A test of the pointer, which a freed one passes.
abbrev pub is_set : Handle → Bool
is_set null = false
is_set valid = true
is_set freed = true

abbrev pub is_valid : Handle → Bool
is_valid null = false
is_valid valid = true
is_valid freed = false
