-- ===== src/Stream.antt =====
-- The stream and Asio's composed operations on it, which the connect functions only call: a
-- parameter of the model. `write` is `asio::write`, `read` is `asio::read` of so many bytes, and
-- `read_cond` is `asio::read` with a completion condition, which sees the bytes received so far.
pub mod Chunks
pub mod Played
use socks.Base.{ℕ, ◌≤◌, ◌<◌, ◌≡◌, ◌⊎◌, true, false, List, length, All}
use socks.Error.{ErrorCode, failed, is_eof}
use socks.Endpoint.{IsByte}

pub record SyncStream : Type 1 where
  pub State : Type 0
  pub write : State → List ℕ → State × ErrorCode
  pub read : State → ℕ → State × List ℕ × ErrorCode
  pub read_cond : State → ℕ → (List ℕ → ErrorCode → ℕ) → State × List ℕ × ErrorCode

-- What Asio documents of these operations. A read never fills more than the buffer that it is given;
-- without an error it stops when the buffer is full or the condition says 0, and with one before.
pub record IsLawful (S : SyncStream) : Type 0 where
  pub read_le : (s : S.State) (k : ℕ) → length (S.read s k).1 ≤ k
  pub read_full : (s : S.State) (k : ℕ) → failed (S.read s k).2 ≡ false → length (S.read s k).1 ≡ k
  pub read_short : (s : S.State) (k : ℕ) → failed (S.read s k).2 ≡ true → length (S.read s k).1 < k
  pub read_bytes : (s : S.State) (k : ℕ) → All IsByte (S.read s k).1
  pub read_cond_le :
      (s : S.State) (k : ℕ) (cond : List ℕ → ErrorCode → ℕ) → length (S.read_cond s k cond).1 ≤ k
  pub read_cond_stops :
      (s : S.State) (k : ℕ) (cond : List ℕ → ErrorCode → ℕ)
      → failed (S.read_cond s k cond).2 ≡ false
      → (length (S.read_cond s k cond).1 ≡ k)
        ⊎ (cond (S.read_cond s k cond).1 (S.read_cond s k cond).2 ≡ 0)
  pub read_cond_bytes :
      (s : S.State) (k : ℕ) (cond : List ℕ → ErrorCode → ℕ) → All IsByte (S.read_cond s k cond).1

-- Every failed read reports the end of the stream.
pub record FailsByEof (S : SyncStream) : Type 0 where
  pub read_eof : (s : S.State) (k : ℕ) → failed (S.read s k).2 ≡ true → is_eof (S.read s k).2 ≡ true
