-- ===== src/Stream/Chunks/Ends.antt =====
-- How a read with a completion condition ends: at the end of a message, waiting for more, or with a full buffer.
use socks.Base.{
  ℕ, zero, suc, ◌+◌, ◌≤◌, ◌<◌, ◌≡◌, refl, ap, ◌∙◌, true, false, Option, some, List, [], ◌∷◌, ◌++◌,
  length, length-append, take, take-append, arith, append_assoc, append-nil,
}
use socks.Stream.Chunks.{Pace, take_in, least, goes_on, stays_open}

-- A condition that is met by a message, and that asks for more at each of its parts from `first` bytes on, ends the
-- read at the end of the message, in whatever parts the message arrives.
module _ (cond : List ℕ → Option ℕ) (pace : Pace) (bytes : List ℕ) (first : ℕ)
    (stops : cond bytes ≡ some 0)
    (goes : (n : ℕ)
      → first ≤ n
      → n < length bytes
      → (more : ℕ) × (cond (take n bytes) ≡ some (suc more))) where
  pub takes :
      (room credit : ℕ) (got rest : List ℕ)
      → bytes ≡ got ++ rest
      → first ≤ length got
      → length rest ≤ room
      → take_in cond pace room credit got rest ≡ some (bytes, [], true)
  takes zero credit got [] same f h = rw (same, append-nil got)
  takes zero credit got (b ∷ rest) same f h = absurd (omega arith)
  takes (suc room) credit got [] same f h =
      let e : got ≡ bytes = rw (same, append-nil got) refl in rw (e, stops) refl
  takes (suc room) (suc credit) got (b ∷ rest) same f h =
      takes room credit (got ++ b ∷ []) rest (rw (same, append_assoc got (b ∷ []) rest) refl)
        (omega (arith, length-append got (b ∷ []))) (omega arith)
  takes (suc room) zero got (b ∷ rest) same f h =
      let size : length bytes ≡ length got + suc (length rest) =
        rw same (omega (arith, length-append got (b ∷ rest))) in
      let part : take (length got) bytes ≡ got = rw same (take-append got (b ∷ rest)) in
      let (more, asks) = goes (length got) f (omega arith) in
      let asks' : cond got ≡ some (suc more) = rw part at asks in
      goes_on cond pace room more b got rest asks'
      ∙ takes room (least more (pace (length got))) (got ++ b ∷ []) rest
          (rw (same, append_assoc got (b ∷ []) rest) refl)
          (omega (arith, length-append got (b ∷ []))) (omega arith)

-- A condition that asks for more at each part of a message and at the message leaves the read waiting.
module _ (cond : List ℕ → Option ℕ) (pace : Pace) (bytes : List ℕ)
    (goes : (got rest : List ℕ)
      → bytes ≡ got ++ rest
      → (more : ℕ) × (cond got ≡ some (suc more))) where
  pub waits :
      (room credit : ℕ) (got rest : List ℕ)
      → bytes ≡ got ++ rest
      → length rest < room
      → take_in cond pace room credit got rest ≡ some (bytes, [], false)
  waits zero credit got rest same l = absurd (omega arith)
  waits (suc room) credit got [] same l =
      let (more, asks) = goes got [] same in
      let e : got ≡ bytes = rw (same, append-nil got) refl in
      stays_open cond pace room credit more got asks ∙ ap (λ l. some (l, [], false)) e
  waits (suc room) (suc credit) got (b ∷ rest) same l =
      waits room credit (got ++ b ∷ []) rest (rw (same, append_assoc got (b ∷ []) rest) refl)
        (omega arith)
  waits (suc room) zero got (b ∷ rest) same l =
      let (more, asks) = goes got (b ∷ rest) same in
      goes_on cond pace room more b got rest asks
      ∙ waits room (least more (pace (length got))) (got ++ b ∷ []) rest
          (rw (same, append_assoc got (b ∷ []) rest) refl) (omega arith)

  -- Where the buffer has no more room than the message needs, the read is over when it is full.
  pub fills :
      (room credit : ℕ) (got rest : List ℕ)
      → bytes ≡ got ++ rest
      → length rest ≡ room
      → take_in cond pace room credit got rest ≡ some (bytes, [], true)
  fills zero credit got [] same l = rw (same, append-nil got)
  fills zero credit got (b ∷ rest) same l = absurd (omega arith)
  fills (suc room) credit got [] same l = absurd (omega arith)
  fills (suc room) (suc credit) got (b ∷ rest) same l =
      fills room credit (got ++ b ∷ []) rest (rw (same, append_assoc got (b ∷ []) rest) refl)
        (omega arith)
  fills (suc room) zero got (b ∷ rest) same l =
      let (more, asks) = goes got (b ∷ rest) same in
      goes_on cond pace room more b got rest asks
      ∙ fills room (least more (pace (length got))) (got ++ b ∷ []) rest
          (rw (same, append_assoc got (b ∷ []) rest) refl) (omega arith)

-- A condition that asks for more at each part of what the buffer can hold ends the read when the buffer is full, and
-- leaves the rest.
module _ (cond : List ℕ → Option ℕ) (pace : Pace) (held left : List ℕ) (first : ℕ)
    (goes : (n : ℕ)
      → first ≤ n
      → n < length held
      → (more : ℕ) × (cond (take n held) ≡ some (suc more))) where
  pub overflows :
      (room credit : ℕ) (got rest : List ℕ)
      → held ≡ got ++ rest
      → first ≤ length got
      → length rest ≡ room
      → take_in cond pace room credit got (rest ++ left) ≡ some (held, left, true)
  overflows zero credit got [] same f h = rw (same, append-nil got)
  overflows zero credit got (b ∷ rest) same f h = absurd (omega arith)
  overflows (suc room) credit got [] same f h = absurd (omega arith)
  overflows (suc room) (suc credit) got (b ∷ rest) same f h =
      overflows room credit (got ++ b ∷ []) rest (rw (same, append_assoc got (b ∷ []) rest) refl)
        (omega (arith, length-append got (b ∷ []))) (omega arith)
  overflows (suc room) zero got (b ∷ rest) same f h =
      let size : length held ≡ length got + suc (length rest) =
        rw same (omega (arith, length-append got (b ∷ rest))) in
      let part : take (length got) held ≡ got = rw same (take-append got (b ∷ rest)) in
      let (more, asks) = goes (length got) f (omega arith) in
      let asks' : cond got ≡ some (suc more) = rw part at asks in
      goes_on cond pace room more b got (rest ++ left) asks'
      ∙ overflows room (least more (pace (length got))) (got ++ b ∷ []) rest
          (rw (same, append_assoc got (b ∷ []) rest) refl)
          (omega (arith, length-append got (b ∷ []))) (omega arith)

-- A condition that asks for more at each part of a message from `first` bytes on, and at the message, leaves a read with
-- more room waiting.
module _ (cond : List ℕ → Option ℕ) (pace : Pace) (bytes : List ℕ) (first : ℕ)
    (goes : (n : ℕ)
      → first ≤ n
      → n ≤ length bytes
      → (more : ℕ) × (cond (take n bytes) ≡ some (suc more))) where
  asks_at :
      (got rest : List ℕ)
      → bytes ≡ got ++ rest
      → first ≤ length got
      → (more : ℕ) × (cond got ≡ some (suc more))
  asks_at got rest same f =
      let size : length bytes ≡ length got + length rest = rw same (length-append got rest) in
      let part : take (length got) bytes ≡ got = rw same (take-append got rest) in
      let (more, asks) = goes (length got) f (omega arith) in (more, rw part at asks)

  pub starves :
      (room credit : ℕ) (got rest : List ℕ)
      → bytes ≡ got ++ rest
      → first ≤ length got
      → length rest < room
      → take_in cond pace room credit got rest ≡ some (bytes, [], false)
  starves zero credit got rest same f l = absurd (omega arith)
  starves (suc room) credit got [] same f l =
      let (more, asks) = asks_at got [] same f in
      let e : got ≡ bytes = rw (same, append-nil got) refl in
      stays_open cond pace room credit more got asks ∙ ap (λ l. some (l, [], false)) e
  starves (suc room) (suc credit) got (b ∷ rest) same f l =
      starves room credit (got ++ b ∷ []) rest (rw (same, append_assoc got (b ∷ []) rest) refl)
        (omega (arith, length-append got (b ∷ []))) (omega arith)
  starves (suc room) zero got (b ∷ rest) same f l =
      let (more, asks) = asks_at got (b ∷ rest) same f in
      goes_on cond pace room more b got rest asks
      ∙ starves room (least more (pace (length got))) (got ++ b ∷ []) rest
          (rw (same, append_assoc got (b ∷ []) rest) refl)
          (omega (arith, length-append got (b ∷ []))) (omega arith)
