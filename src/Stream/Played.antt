-- ===== src/Stream/Played.antt =====
-- A stream whose state is what the peer sends before it closes, and which takes every write. It shows
-- that what is asked of a stream can hold.
use socks.Base.{
  ℕ, ◌%◌, ◌≤◌, ◌≡◌, ◌⊎◌, refl, inl, inr, Bool, true, false, Option, none, some, List, [], ◌∷◌,
  length, All, leb, if◌then◌else◌, arith, length-take, take, drop,
}
use native.Mathlib.Nat.{mod-eq_of_lt}
use socks.Base.Ensures.{Ensures, Ensures-result}
use socks.Error.{ErrorCode, no_error, eof, failed, is_eof}
use socks.Endpoint.{IsByte}
use socks.Stream.Chunks.{Pace, Brought, take_in, take_in-Brought, take_in-IsByte}
use socks.Stream.{SyncStream, IsLawful, FailsByEof}

-- What is read is bytes.
abbrev pub as_bytes : List ℕ → List ℕ
as_bytes [] = []
as_bytes (b ∷ bs) = b % 256 ∷ as_bytes bs

pub length-as_bytes : (bs : List ℕ) → length (as_bytes bs) ≡ length bs
length-as_bytes [] = refl
length-as_bytes (b ∷ bs) = omega (arith, length-as_bytes bs)

pub as_bytes-IsByte : (bs : List ℕ) → All IsByte (as_bytes bs)
as_bytes-IsByte [] = tt
as_bytes-IsByte (b ∷ bs) = (omega arith, as_bytes-IsByte bs)

pub as_bytes_lem : (bytes : List ℕ) → All IsByte bytes → as_bytes bytes ≡ bytes
as_bytes_lem [] h = refl
as_bytes_lem (b ∷ bytes) (hb, h) = rw (mod-eq_of_lt hb, as_bytes_lem bytes h) refl

abbrev pub play_read : List ℕ → ℕ → List ℕ × List ℕ × ErrorCode
play_read s k = (drop k s, as_bytes (take k s), if leb k (length s) then no_error else eof)

-- The read with a condition takes the bytes at a pace.
abbrev pub took : Option (List ℕ × List ℕ × Bool) → List ℕ × List ℕ × ErrorCode
took (some (got, rest, over)) = (rest, got, if over then no_error else eof)
took none = ([], [], eof)

abbrev pub play_cond : Pace → List ℕ → ℕ → (List ℕ → ErrorCode → ℕ) → List ℕ × List ℕ × ErrorCode
play_cond pace s k cond = took (take_in (λ got. some (cond got no_error)) pace k 0 [] (as_bytes s))

abbrev pub paced : Pace → SyncStream
paced pace = record {
  State = List ℕ;
  write = λ s bytes. (s, no_error);
  read = play_read;
  read_cond = play_cond pace;
}

-- The bytes come one by one.
abbrev pub script : SyncStream
script = paced (λ n. 0)

took_lem :
    (cond : List ℕ → ErrorCode → ℕ) (k : ℕ) (r : Option (List ℕ × List ℕ × Bool))
    → Ensures (Brought (λ got. some (cond got no_error)) k) r
    → Ensures (λ t. All IsByte t.0) r
    → let (rest, got, e) = took r in
      (length got ≤ k) × (failed e ≡ false → (length got ≡ k) ⊎ (cond got e ≡ 0)) × All IsByte got
unfolding failed
took_lem cond k none h b = (omega arith, λ f. absurd (ground arith), tt)
took_lem cond k (some (got, rest, true)) h b =
    let (le, stops) = Ensures-result h refl in
    (le, (λ _. elim (stops refl) [ inl q ↦ inl q | inr q ↦ inr (cc) ]), Ensures-result b refl)
took_lem cond k (some (got, rest, false)) h b =
    let (le, stops) = Ensures-result h refl in
    (le, (λ f. absurd (ground arith)), Ensures-result b refl)

module _ (pace : Pace) where
  play_cond_lem :
      (s : List ℕ) (k : ℕ) (cond : List ℕ → ErrorCode → ℕ)
      → let (rest, got, e) = play_cond pace s k cond in
        (length got ≤ k) × (failed e ≡ false → (length got ≡ k) ⊎ (cond got e ≡ 0)) × All IsByte got
  play_cond_lem s k cond =
      let asks = λ (got : List ℕ). some (cond got no_error) in
      took_lem cond k _ (take_in-Brought asks pace k 0 [] (as_bytes s) k (omega arith))
        (take_in-IsByte asks pace k 0 [] (as_bytes s) tt (as_bytes-IsByte s))

  pub paced-IsLawful : IsLawful (paced pace)
  unfolding failed
  paced-IsLawful = record {
    read_le = λ s k. omega (arith, length-as_bytes (take k s), length-take k s);
    read_full = λ s k f. ground (arith, length-as_bytes (take k s), length-take k s);
    read_short = λ s k f. ground (arith, length-as_bytes (take k s), length-take k s);
    read_bytes = λ s k. as_bytes-IsByte (take k s);
    read_cond_le = λ s k cond. (play_cond_lem s k cond).0;
    read_cond_stops = λ s k cond f. (play_cond_lem s k cond).1 f;
    read_cond_bytes = λ s k cond. (play_cond_lem s k cond).2;
  }

pub script-IsLawful : IsLawful script
script-IsLawful = paced-IsLawful (λ n. 0)

pub script-FailsByEof : FailsByEof script
unfolding failed is_eof
script-FailsByEof = record { read_eof = λ s k h. ground arith }
