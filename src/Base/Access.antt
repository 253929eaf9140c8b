-- ===== src/Base/Access.antt =====
-- Reads of a byte buffer that the code does not change. `none` is undefined behaviour: a read out of
-- the buffer, or a failed BOOST_ASSERT.
use mathlib.Core.Bool.{Bool, true, false}
use mathlib.Core.List.{List, [], ◌∷◌}
use mathlib.Core.Option.{Option, none, some}
use Prim.Native.Nat.{ℕ, zero, suc, ◌+◌}
use socks.Base.Lists.{get_elem?}

infixl 5 ◌>>=◌ ◌>>◌
abbrev pub ◌>>=◌ {ℓ κ} : {A : Type ℓ} {B : Type κ} → Option A → (A → Option B) → Option B
none >>= f = none
some a >>= f = f a

abbrev pub ◌>>◌ {ℓ} : {B : Type ℓ} → Option (Unit {0}) → Option B → Option B
m >> k = m >>= λ _. k

-- BOOST_ASSERT
abbrev pub assert : Bool → Option (Unit {0})
assert true = some tt
assert false = none

-- `buffer[i]`
abbrev pub read_at : List ℕ → ℕ → Option ℕ
read_at = get_elem?

-- `std::memcpy(…, buffer + i, n)`
abbrev pub read_each : List ℕ → ℕ → ℕ → Option (List ℕ)
read_each buf i zero = some []
read_each buf i (suc n) = do b ← read_at buf i; bs ← read_each buf (i + 1) n; some (b ∷ bs)
