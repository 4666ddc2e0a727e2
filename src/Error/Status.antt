-- ===== src/Error/Status.antt =====
-- The status codes of `TusError`.
use fileloft.Base.{◌≤◌, ◌<◌, ◌↔◌, arith}
use fileloft.Error.{TusError, status_code}

-- The errors that come from the server's own side.
abbrev pub IsInternal : TusError → Type 0
IsInternal (TusError.io why) = Unit
IsInternal (TusError.serialization why) = Unit
IsInternal (TusError.internal why) = Unit
IsInternal _ = ⊥

-- Every error maps to a client or server error status, 400 to 599, and to a server error, 500 or
-- above, exactly if it is an I/O, serialization or internal error.
pub status_code_class :
    (e : TusError)
    → (400 ≤ status_code e) × (status_code e < 600) × ((500 ≤ status_code e) ↔ IsInternal e)
unfolding status_code
status_code_class TusError.missing_tus_resumable = omega arith
status_code_class _ = omega arith
