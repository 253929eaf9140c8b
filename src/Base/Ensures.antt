-- ===== src/Base/Ensures.antt =====
-- What holds of the result of a do block, if it gives one: a rule for each way to build the block.
use mathlib.Core.Path.{◌≡◌, refl, subst}
use mathlib.Core.Bool.{Bool, true, false}
use mathlib.Core.Option.{Option, none, some}
use socks.Base.Tests.{if◌then◌else◌}
use socks.Base.Access.{◌>>=◌}

pub data Ensures {A : Type 0} (P : A → Type 0) : Option A → Type 0 where
  faults : Ensures P none
  gives : {a : A} → P a → Ensures P (some a)

module _ {A : Type 0} {P : A → Type 0} where
  pub Ensures-if :
      (c : Bool) (x y : Option A)
      → (c ≡ true → Ensures P x)
      → (c ≡ false → Ensures P y)
      → Ensures P (if c then x else y)
  Ensures-if true x y hx hy = hx refl
  Ensures-if false x y hx hy = hy refl

  pub Ensures-bind :
      {B : Type 0} (m : Option B) (f : B → Option A)
      → ((b : B) → Ensures P (f b))
      → Ensures P (m >>= f)
  Ensures-bind none f h = faults
  Ensures-bind (some b) f h = h b

  -- The rest of the block may use what holds of the first result.
  pub Ensures-then :
      {B : Type 0} {Q : B → Type 0} (m : Option B) (f : B → Option A)
      → Ensures Q m
      → ((b : B) → Q b → Ensures P (f b))
      → Ensures P (m >>= f)
  Ensures-then none f first h = faults
  Ensures-then (some b) f (gives q) h = h b q

  pub Ensures-map :
      {Q : A → Type 0} (m : Option A) → ((a : A) → Q a → P a) → Ensures Q m → Ensures P m
  Ensures-map none f h = faults
  Ensures-map (some a) f (gives q) = gives (f a q)

  -- The result itself.
  pub Ensures-result : {r : Option A} {a : A} → Ensures P r → r ≡ some a → P a
  Ensures-result faults q = absurd (cc)
  Ensures-result (gives p) q = subst P (cc q) p

pub ruleset ensures_rules = (Ensures-if, Ensures-bind, faults, gives)
