-- ===== src/Exchange/Together.antt =====
-- include/boost/socks/impl/connect_v4.hpp with example/server/async/socks_server_async.cpp: a SOCKS4 request whose first two
-- bytes arrive together.
use socks.Base.{
  ℕ, zero, suc, ◌+◌, ◌-◌, ◌≤◌, ◌<◌, ◌≡◌, refl, ap, ◌∙◌, true, false, some, List, [], ◌∷◌, ◌++◌,
  length, length-append, length-take, length-drop, take, take_all, drop_all, take-append, drop,
  arith, Bool-cases, inl, inr, if◌then◌else◌, replicate, leb,
}
use socks.Error.{no_error, failed}
use socks.Server.Greeting.{has, greeting_cond}
use socks.Server.Run.{accepted, create, start}
use socks.Stream.Chunks.{Pace, take_in, least}
use socks.Stream.Chunks.Ends.{takes, overflows}
use socks.Exchange.{asked}

has-take : (v k : ℕ) (bs : List ℕ) → has v bs ≡ false → has v (take k bs) ≡ false
has-take v zero bs h = refl
has-take v (suc k) [] h = refl
has-take v (suc k) (b ∷ bs) h = ground (arith, has-take v k bs)

has-last : (v : ℕ) (bs : List ℕ) → has v (bs ++ v ∷ []) ≡ true
has-last v [] = ground arith
has-last v (b ∷ bs) = ground (arith, has-last v bs)

has-length : (v : ℕ) (bs : List ℕ) → has v bs ≡ true → 1 ≤ length bs
has-length v [] h = absurd (cc)
has-length v (b ∷ bs) h = omega arith

take-before : (k : ℕ) (bs cs : List ℕ) → k ≤ length bs → take k (bs ++ cs) ≡ take k bs
take-before zero bs cs h = refl
take-before (suc k) [] cs h = absurd (omega arith)
take-before (suc k) (b ∷ bs) cs h = ap (λ l. b ∷ l) (take-before k bs cs (omega arith))

drop-before : (k : ℕ) (bs cs : List ℕ) → k ≤ length bs → drop k (bs ++ cs) ≡ drop k bs ++ cs
drop-before zero bs cs h = refl
drop-before (suc k) [] cs h = absurd (omega arith)
drop-before (suc k) (b ∷ bs) cs h = drop-before k bs cs (omega arith)

split : (k : ℕ) (bs cs : List ℕ) → bs ++ cs ≡ take k bs ++ (drop k bs ++ cs)
split zero bs cs = refl
split (suc k) [] cs = refl
split (suc k) (b ∷ bs) cs = ap (λ l. b ∷ l) (split k bs cs)

least_positive : (a b : ℕ) → (n : ℕ) × (least (suc a) (suc b) ≡ suc n)
least_positive a b = elim (Bool-cases (leb (suc a) (suc b))) [
  | inl e ↦ (a, rw e refl)
  | inr e ↦ (b, rw e refl)
]

-- The condition of the first read, with eight bytes of a SOCKS4 CONNECT request and a part of what follows them.
module _ (b2 b3 b4 b5 b6 b7 : ℕ) where
  on_front :
      (part rest : List ℕ) (n : ℕ)
      → n ≡ 8 + length part
      → length part + length rest ≡ 250
      → greeting_cond (4 ∷ 1 ∷ b2 ∷ b3 ∷ b4 ∷ b5 ∷ b6 ∷ b7 ∷ (part ++ rest)) no_error n
        ≡ some (if has 0 part then 0 else 250 - length part)
  unfolding greeting_cond failed
  on_front part rest n e size =
      let behind : n - 8 ≡ length part = omega arith in
      let total = length-append part rest in
      rw (behind, take-append part rest)
        (elim (Bool-cases (has 0 part)) [
          | inl h ↦ let one = has-length 0 part h in rw h (ground arith)
          | inr h ↦ rw h (ground arith)
        ])

  on_part :
      (part : List ℕ)
      → length part ≤ 250
      → asked accepted (4 ∷ 1 ∷ b2 ∷ b3 ∷ b4 ∷ b5 ∷ b6 ∷ b7 ∷ part)
        ≡ some (if has 0 part then 0 else 250 - length part)
  unfolding create start
  on_part part h =
      let zeros : List ℕ = replicate 250 0 in
      on_front part (drop (length part) zeros) _ (omega arith)
        (omega (arith, length-drop (length part) zeros))

  -- Eight bytes and a part of what follows them, in which no 0 stands before its last byte.
  module _ (tail : List ℕ) (short : length tail ≤ 250)
      (no_nul : (k : ℕ) → k < length tail → has 0 (take k tail) ≡ false) where
    abbrev message : List ℕ
    message = 4 ∷ 1 ∷ b2 ∷ b3 ∷ b4 ∷ b5 ∷ b6 ∷ b7 ∷ tail

    goes_on_tail :
        (k : ℕ)
        → k < length tail
        → (more : ℕ) × (asked accepted (4 ∷ 1 ∷ b2 ∷ b3 ∷ b4 ∷ b5 ∷ b6 ∷ b7 ∷ take k tail)
            ≡ some (suc more))
    goes_on_tail k h =
        let size = length-take k tail in
        let left : 250 - length (take k tail) ≡ suc (249 - length (take k tail)) = omega arith in
        (
          249 - length (take k tail),
          on_part (take k tail) (omega arith) ∙ rw (no_nul k h) (ap some left),
        )

    goes :
        (n : ℕ)
        → 2 ≤ n
        → n < length message
        → (more : ℕ) × (asked accepted (take n message) ≡ some (suc more))
    unfolding greeting_cond create start failed
    goes zero h l = absurd (omega arith)
    goes (suc zero) h l = absurd (omega arith)
    goes (suc (suc zero)) h l = (255, refl)
    goes (suc (suc (suc zero))) h l = (254, refl)
    goes (suc (suc (suc (suc zero)))) h l = (253, refl)
    goes (suc (suc (suc (suc (suc zero))))) h l = (252, refl)
    goes (suc (suc (suc (suc (suc (suc zero)))))) h l = (251, refl)
    goes (suc (suc (suc (suc (suc (suc (suc zero))))))) h l = (250, refl)
    goes (suc (suc (suc (suc (suc (suc (suc (suc k)))))))) h l = goes_on_tail k (omega arith)

  module _ (user : List ℕ) (no_nul : has 0 user ≡ false) (pace : Pace) (more : ℕ)
      (together : pace 0 ≡ suc more) where
    abbrev request : List ℕ
    request = 4 ∷ 1 ∷ b2 ∷ b3 ∷ b4 ∷ b5 ∷ b6 ∷ b7 ∷ (user ++ 0 ∷ [])

    -- The read of a request that the buffer can hold, and of one that it cannot.
    read_short :
        length user ≤ 249
        → take_in (asked accepted) pace 258 0 [] request ≡ some (request, [], true)
    unfolding greeting_cond create start failed
    read_short short =
        let (credit, left) = least_positive 256 more in
        let size = length-append user (0 ∷ []) in
        let stops : asked accepted request ≡ some 0 =
          on_part (user ++ 0 ∷ []) (omega arith) ∙ rw (has-last 0 user) refl in
        let open_ : (k : ℕ)
            → k < length (user ++ 0 ∷ [])
            → has 0 (take k (user ++ 0 ∷ [])) ≡ false =
          λ k h. rw (take-before k user (0 ∷ []) (omega arith)) (has-take 0 k user no_nul) in
        rw (together, left)
          (takes (asked accepted) pace request 2 stops (goes (user ++ 0 ∷ []) (omega arith) open_)
            256 credit (4 ∷ 1 ∷ []) (b2 ∷ b3 ∷ b4 ∷ b5 ∷ b6 ∷ b7 ∷ (user ++ 0 ∷ [])) refl
            (omega arith) (omega arith))

    read_long :
        250 ≤ length user
        → take_in (asked accepted) pace 258 0 [] request
          ≡ some
              (4 ∷ 1 ∷ b2 ∷ b3 ∷ b4 ∷ b5 ∷ b6 ∷ b7 ∷ take 250 user, drop 250 user ++ 0 ∷ [], true)
    unfolding greeting_cond create start failed
    read_long long =
        let (credit, left) = least_positive 256 more in
        let held : List ℕ = take 250 user in
        let size : length held ≡ 250 = omega (arith, length-take 250 user) in
        let open_ : (k : ℕ) → k < length held → has 0 (take k held) ≡ false =
          λ k h. has-take 0 k held (has-take 0 250 user no_nul) in
        let all : user ++ 0 ∷ [] ≡ held ++ (drop 250 user ++ 0 ∷ []) = split 250 user (0 ∷ []) in
        rw (together, left, all)
          (overflows (asked accepted) pace (4 ∷ 1 ∷ b2 ∷ b3 ∷ b4 ∷ b5 ∷ b6 ∷ b7 ∷ held)
            (drop 250 user ++ 0 ∷ []) 2 (goes held (omega arith) open_) 256 credit (4 ∷ 1 ∷ [])
            (b2 ∷ b3 ∷ b4 ∷ b5 ∷ b6 ∷ b7 ∷ held) refl (omega arith) (omega arith))

    -- What the buffer cannot hold is left.
    pub take_in-request_v4_bytes :
        take_in (asked accepted) pace 258 0 [] request
        ≡ some (take 258 request, drop 258 request, true)
    take_in-request_v4_bytes = elim (Bool-cases (leb (length user) 249)) [
      | inl short ↦
          let h : length user ≤ 249 = ground arith in
          read_short h
          ∙ rw
              (
                take_all 250 (user ++ 0 ∷ []) (omega (arith, length-append user (0 ∷ []))),
                drop_all 250 (user ++ 0 ∷ []) (omega (arith, length-append user (0 ∷ []))),
              )
              refl
      | inr long ↦
          let h : 250 ≤ length user = ground arith in
          read_long h
          ∙ rw
              (
                take-before 250 user (0 ∷ []) (omega arith),
                drop-before 250 user (0 ∷ []) (omega arith),
              )
              refl
    ]
