-- ===== src/Base/Memory.antt =====
-- A byte buffer that the code fills through a pointer. `none` is undefined behaviour: an access out
-- of the buffer, or a failed BOOST_ASSERT.
use mathlib.Core.Option
use mathlib.Core.Path.{◌≡◌, refl}
use mathlib.Core.Bool.{Bool, true, false}
use mathlib.Core.List.{List, [], ◌∷◌, ◌++◌, append-nil, append_assoc}
use mathlib.Core.Option.{Option, none, some}
use native.Mathlib.Omega.{arith}
use Prim.Native.Nat.{ℕ, zero, suc, ◌+◌, ◌≤◌, ◌<◌}
use socks.Base.Lists.{length, drop, length-append, length-drop}

abbrev pub Mem : Type 0 → Type 0
Mem A = List ℕ → Option (A × List ℕ)

abbrev pub pure : {A : Type 0} → A → Mem A
pure a buf = some (a, buf)

infixl 5 ◌>>=◌ ◌>>◌
abbrev pub ◌>>=◌ : {A B : Type 0} → Mem A → (A → Mem B) → Mem B
◌>>=◌ m f buf = elim (m buf) [ none ↦ none | some (a, buf') ↦ f a buf' ]

abbrev pub ◌>>◌ : {B : Type 0} → Mem (Unit {0}) → Mem B → Mem B
m >> k = m >>= λ _. k

-- BOOST_ASSERT
abbrev pub assert : Bool → Mem (Unit {0})
assert true buf = some (tt, buf)
assert false buf = none

set? : List ℕ → ℕ → ℕ → Option (List ℕ)
set? [] i v = none
set? (x ∷ xs) zero v = some (v ∷ xs)
set? (x ∷ xs) (suc i) v = Option.map (λ l. x ∷ l) (set? xs i v)

-- `buffer[i] = v`
unfoldable pub write_at : ℕ → ℕ → Mem (Unit {0})
unfolding set?
write_at i v buf = Option.map (λ l. (tt, l)) (set? buf i v)

-- `for (auto c : bs) buffer[i++] = c;` with `buffer` at `base` of the array; returns the last `i`.
unfoldable pub write_each : ℕ → ℕ → List ℕ → Mem ℕ
unfolding write_at
write_each base i [] = pure i
write_each base i (b ∷ bs) = do write_at (base + i) b; write_each base (i + 1) bs

-- The buffer after its first bytes were replaced by `front`.
abbrev pub overlay : List ℕ → List ℕ → List ℕ
overlay front buf = front ++ drop (length front) buf

pub length-overlay :
    (front buf : List ℕ) → length front ≤ length buf → length (overlay front buf) ≡ length buf
length-overlay front buf h =
    omega (arith, length-append front (drop (length front) buf), length-drop (length front) buf)

-- `m`, called when the bytes `front` are written, writes the bytes `bs` behind them and returns `a`.
pub record Emits {A : Type 0} (m : Mem A) (front bs : List ℕ) (a : A) : Type 0 where
  pub run :
      (buf : List ℕ)
      → length front + length bs ≤ length buf
      → m (overlay front buf) ≡ some (a, overlay (front ++ bs) buf)

set?-overlay :
    (front buf : List ℕ) (v : ℕ)
    → length front < length buf
    → set? (overlay front buf) (length front) v ≡ some (overlay (front ++ v ∷ []) buf)
unfolding set?
set?-overlay [] [] v h = absurd (omega arith)
set?-overlay [] (x ∷ xs) v h = refl
set?-overlay (f ∷ fs) [] v h = absurd (omega arith)
set?-overlay (f ∷ fs) (x ∷ xs) v h = rw (set?-overlay fs xs v (omega arith))

pub Emits-write_at :
    (i v : ℕ) (front : List ℕ) → i ≡ length front → Emits (write_at i v) front (v ∷ []) tt
unfolding write_at
Emits-write_at i v front e = record {
  run = λ buf h. rw (e, set?-overlay front buf v (omega arith));
}

pub Emits-pure : {A : Type 0} (a : A) (front : List ℕ) → Emits (pure a) front [] a
Emits-pure a front = record { run = λ buf h. rw append-nil }

pub Emits-bind :
    {A B : Type 0} (m : Mem A) (f : A → Mem B) (front bs cs : List ℕ) (a : A) (b : B)
    → Emits m front bs a
    → Emits (f a) (front ++ bs) cs b
    → Emits (m >>= f) front (bs ++ cs) b
Emits-bind m f front bs cs a b em ef = record {
  run = λ buf h.
      let hl : length front + length bs + length cs ≤ length buf =
        omega (arith, length-append bs cs) in
      rw (em.run buf (omega arith), ◌>>=◌)
        (rw (← append_assoc) (ef.run buf (omega (arith, length-append front bs))));
}

-- A byte is written, and the rest of the block goes on behind it.
pub Emits-byte :
    {B : Type 0} (i v : ℕ) (k : Mem B) (front cs : List ℕ) (b : B)
    → i ≡ length front
    → Emits k (front ++ v ∷ []) cs b
    → Emits (write_at i v >> k) front (v ∷ cs) b
Emits-byte i v k front cs b e ek =
    Emits-bind (write_at i v) (λ _. k) front (v ∷ []) cs tt b (Emits-write_at i v front e) ek

pub Emits-write_each :
    (base : ℕ) (bs front : List ℕ) (i : ℕ)
    → base + i ≡ length front
    → Emits (write_each base i bs) front bs (i + length bs)
unfolding write_each
Emits-write_each base [] front i e = record { run = λ buf h. rw append-nil (ground arith) }
Emits-write_each base (b ∷ bs) front i e =
    let next : base + (i + 1) ≡ length (front ++ b ∷ []) =
      omega (arith, length-append front (b ∷ [])) in
    let total : i + 1 + length bs ≡ i + length (b ∷ bs) = omega arith in
    rw total at (
      Emits-byte (base + i) b (write_each base (i + 1) bs) front bs (i + 1 + length bs) e
        (Emits-write_each base bs (front ++ b ∷ []) (i + 1) next))

-- An assertion that holds is passed.
pub Emits-assert :
    {B : Type 0} (c : Bool) (k : Mem B) (front cs : List ℕ) (b : B)
    → c ≡ true
    → Emits k front cs b
    → Emits (assert c >> k) front cs b
Emits-assert c k front cs b e ek = rw e ek

pub Emits-cast :
    {A : Type 0} (m : Mem A) (front bs cs : List ℕ) (a b : A)
    → bs ≡ cs
    → a ≡ b
    → Emits m front bs a
    → Emits m front cs b
Emits-cast m front bs cs a b p q em = rw (← p, ← q) em

-- A loop writes its bytes, and the rest of the block goes on behind them.
pub Emits-each :
    {B : Type 0} (base i : ℕ) (bs : List ℕ) (k : ℕ → Mem B) (front cs : List ℕ) (b : B)
    → base + i ≡ length front
    → Emits (k (i + length bs)) (front ++ bs) cs b
    → Emits (write_each base i bs >>= k) front (bs ++ cs) b
Emits-each base i bs k front cs b e ek =
    Emits-bind (write_each base i bs) k front bs cs (i + length bs) b
      (Emits-write_each base bs front i e) ek
