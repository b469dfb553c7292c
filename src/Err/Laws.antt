-- ===== src/Err/Laws.antt =====
-- The codes name the errors.
use esk.Common.{◌≡◌, arith}
use esk.Err.{Err, code}

-- Two errors with the same code are the same error.
pub code-injective : (a b : Err) → code a ≡ code b → a ≡ b
unfolding code
code-injective a b h = ground arith
