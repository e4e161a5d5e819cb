-- ===== src/Error/Laws.antt =====
-- What `try_from` tells apart.
use dcb_layer.Common.{◌≡◌, ok, err, arith}
use dcb_layer.Error.{Error, FdbError, fdb, try_from}

-- The errors that convert are the database's own, each to itself.
pub try_from-eq_ok : (e : Error) (f : FdbError) → try_from e ≡ ok f → e ≡ fdb f
unfolding try_from
try_from-eq_ok e f h = ground arith

-- An error that does not convert comes back as it is.
pub try_from-eq_err : (e d : Error) → try_from e ≡ err d → e ≡ d
unfolding try_from
try_from-eq_err e d h = ground arith
