-- ===== src/Stream/Chunks.antt =====
-- A read with a completion condition, as Asio composes it of reads of whatever has arrived: the condition says
-- how many bytes the next of them may bring, and is asked again behind it.
pub mod Ends
use socks.Base.{
  ℕ, zero, suc, ◌+◌, ◌-◌, ◌≤◌, ◌<◌, ◌≡◌, ◌⊎◌, inl, inr, refl, ap, subst, ◌∙◌, Bool, true, false,
  Option, some, List, [], ◌∷◌, ◌++◌, length, length-append, take, take-append, leb, ◌==◌, ==_iff,
  Option-cases, if◌then◌else◌, All, All-append, arith, append_assoc, append-nil,
}
use socks.Base.Access.{◌>>=◌}
use socks.Base.Ensures.{Ensures, faults, gives, Ensures-if, Ensures-bind}
use socks.Endpoint.{IsByte}

-- A pace says, of the number of bytes received so far, how many bytes more than one have arrived together.
abbrev pub Pace : Type 0
Pace = ℕ → ℕ

abbrev pub least : ℕ → ℕ → ℕ
least a b = if leb a b then a else b

-- A read into a buffer with room for `room` bytes behind `got`, of which `credit` are of a part that has already
-- been asked for: what was read, what is left, and whether the read is over or waits for more. `none` is a fault of
-- the condition.
abbrev pub take_in :
    (List ℕ → Option ℕ) → Pace → ℕ → ℕ → List ℕ → List ℕ → Option (List ℕ × List ℕ × Bool)
take_in cond pace zero credit got rest = some (got, rest, true)
take_in cond pace (suc room) credit got [] = do n ← cond got; some (got, [], n == 0)
take_in cond pace (suc room) (suc credit) got (b ∷ rest) =
    take_in cond pace room credit (got ++ b ∷ []) rest
take_in cond pace (suc room) zero got (b ∷ rest) = do
  n ← cond got
  let next = take_in cond pace room (least (n - 1) (pace (length got))) (got ++ b ∷ []) rest
  if n == 0 then some (got, b ∷ rest, true) else next

suc_zero : (n : ℕ) → (suc n == 0) ≡ false
suc_zero n = ground arith

-- A condition that asks for more lets one byte in.
pub goes_on :
    (cond : List ℕ → Option ℕ) (pace : Pace) (room more b : ℕ) (got rest : List ℕ)
    → cond got ≡ some (suc more)
    → take_in cond pace (suc room) 0 got (b ∷ rest)
      ≡ take_in cond pace room (least more (pace (length got))) (got ++ b ∷ []) rest
goes_on cond pace room more b got rest e =
    let left : suc more - 1 ≡ more = omega arith in rw (e, suc_zero more, left) refl

pub stays_open :
    (cond : List ℕ → Option ℕ) (pace : Pace) (room credit more : ℕ) (got : List ℕ)
    → cond got ≡ some (suc more)
    → take_in cond pace (suc room) credit got [] ≡ some (got, [], false)
stays_open cond pace room credit more got e = rw (e, suc_zero more) refl

-- What a read has brought: no more bytes than there was room for; and a read that is over has filled the buffer, or
-- its condition is met.
abbrev pub Brought : (List ℕ → Option ℕ) → ℕ → List ℕ × List ℕ × Bool → Type 0
Brought cond size (got, rest, over) =
    (length got ≤ size) × (over ≡ true → (length got ≡ size) ⊎ (cond got ≡ some 0))

module _ (cond : List ℕ → Option ℕ) (pace : Pace) where
  pub take_in-Brought :
      (room credit : ℕ) (got rest : List ℕ) (size : ℕ)
      → size ≡ length got + room
      → Ensures (Brought cond size) (take_in cond pace room credit got rest)
  take_in-Brought zero credit got rest size e = gives (omega arith, λ _. inl (omega arith))
  take_in-Brought (suc room) credit got [] size e = elim (Option-cases (cond got)) [
    | inl p ↦ rw p faults
    | inr (n, p) ↦ rw p (gives (omega arith, λ over. inr (rw p (ap some ((==_iff n 0).0 over)))))
  ]
  take_in-Brought (suc room) (suc credit) got (b ∷ rest) size e =
      let one = length-append got (b ∷ []) in
      take_in-Brought room credit (got ++ b ∷ []) rest size (omega arith)
  take_in-Brought (suc room) zero got (b ∷ rest) size e =
      let one = length-append got (b ∷ []) in
      elim (Option-cases (cond got)) [
        | inl p ↦ rw p faults
        | inr (n, p) ↦ rw p (
            Ensures-if (n == 0) _ _
              (λ met. gives (omega arith, λ _. inr (rw p (ap some ((==_iff n 0).0 met)))))
              (λ _.
                take_in-Brought room (least (n - 1) (pace (length got))) (got ++ b ∷ []) rest size
                  (omega arith)))
      ]

  -- Of bytes it brings bytes.
  pub take_in-IsByte :
      (room credit : ℕ) (got rest : List ℕ)
      → All IsByte got
      → All IsByte rest
      → Ensures (λ r. All IsByte r.0) (take_in cond pace room credit got rest)
  take_in-IsByte zero credit got rest h k = gives h
  take_in-IsByte (suc room) credit got [] h k = Ensures-bind (cond got) _ (λ n. gives h)
  take_in-IsByte (suc room) (suc credit) got (b ∷ rest) h (hb, k) =
      take_in-IsByte room credit (got ++ b ∷ []) rest (All-append IsByte got (b ∷ []) h (hb, tt)) k
  take_in-IsByte (suc room) zero got (b ∷ rest) h (hb, k) = Ensures-bind (cond got) _ (λ n.
      Ensures-if (n == 0) _ _ (λ _. gives h)
        (λ _.
          take_in-IsByte room (least (n - 1) (pace (length got))) (got ++ b ∷ []) rest
            (All-append IsByte got (b ∷ []) h (hb, tt)) k))
