-- ===== src/Base/Monad.antt =====
-- do blocks of results that may be missing.
use s_os.Base.{Option, none, some}

infixl 5 ◌>>=◌
abbrev pub ◌>>=◌ : {A B : Type 0} → Option A → (A → Option B) → Option B
none >>= k = none
some a >>= k = k a
