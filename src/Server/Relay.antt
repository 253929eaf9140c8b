-- ===== src/Server/Relay.antt =====
-- example/server/async/socks_server_async.cpp: `do_relay`, two loops that run side by side. Each reads from
-- one socket into its buffer and writes the buffer to the other socket.
pub mod Flow
use socks.Base.{ℕ, ◌+◌, ◌-◌, ◌≤◌, ◌≡◌, List, [], ◌++◌, length, take, if◌then◌else◌}
use socks.Error.{ErrorCode, failed}
use socks.Server.{resize}

-- What a loop waits for.
pub data Half : Type 0 where
  reading writing ended : Half

-- One loop with its buffer. Of the bytes that went through it `received` came from the one socket,
-- `delivered` went to the other, and `dropped` counts those that were received and then overwritten.
pub record Loop : Type 0 where
  pub half : Half
  pub buffer : List ℕ
  pub received : List ℕ
  pub delivered : List ℕ
  pub dropped : ℕ

-- Either loop: the buffer is resized to 1024 and a read started.
unfoldable pub do_relay_from : Loop → Loop
do_relay_from l = record l { half = reading; buffer = resize 1024 l.buffer }

-- Either loop: one `async_write_some` of the buffer.
unfoldable pub do_relay_to : Loop → Loop
do_relay_to l = record l { half = writing }

-- The completion of the read, with the bytes that it brought; the handlers of both loops end it on any error.
unfoldable pub on_read_some : ErrorCode → List ℕ → Loop → Loop
unfolding do_relay_to
on_read_some ec bytes l =
    if failed ec
    then record l { half = ended }
    else do_relay_to (record l { buffer = bytes; received = l.received ++ bytes })

-- The completion of the write, which wrote `n` bytes. The handler does not look at `n`.
unfoldable pub on_write_some : ErrorCode → ℕ → Loop → Loop
unfolding do_relay_from
on_write_some ec n l =
    if failed ec
    then record l { half = ended }
    else do_relay_from (record l {
      delivered = l.delivered ++ take n l.buffer;
      dropped = l.dropped + (length l.buffer - n);
    })

-- A loop before its first read, with what its buffer held.
abbrev pub fresh : List ℕ → Loop
fresh buffer = record { half = ended; buffer = buffer; received = []; delivered = []; dropped = 0 }

pub record Relay : Type 0 where
  pub from_client : Loop
  pub from_target : Loop

unfoldable pub do_relay_from_client : Relay → Relay
unfolding do_relay_from
do_relay_from_client r = record r { from_client = do_relay_from r.from_client }

-- The completion of the read in `do_relay_from_client`, which calls `do_relay_to_target`.
unfoldable pub on_client_read : ErrorCode → List ℕ → Relay → Relay
unfolding on_read_some
on_client_read ec bytes r = record r { from_client = on_read_some ec bytes r.from_client }

-- The completion of the write in `do_relay_to_target`, which calls `do_relay_from_client`.
unfoldable pub on_target_written : ErrorCode → ℕ → Relay → Relay
unfolding on_write_some
on_target_written ec n r = record r { from_client = on_write_some ec n r.from_client }

unfoldable pub do_relay_from_target : Relay → Relay
unfolding do_relay_from
do_relay_from_target r = record r { from_target = do_relay_from r.from_target }

-- The completion of the read in `do_relay_from_target`, which calls `do_relay_to_client`.
unfoldable pub on_target_read : ErrorCode → List ℕ → Relay → Relay
unfolding on_read_some
on_target_read ec bytes r = record r { from_target = on_read_some ec bytes r.from_target }

-- The completion of the write in `do_relay_to_client`, which calls `do_relay_from_target`.
unfoldable pub on_client_written : ErrorCode → ℕ → Relay → Relay
unfolding on_write_some
on_client_written ec n r = record r { from_target = on_write_some ec n r.from_target }

-- `do_relay`, with what `buffer_` and `target_buffer_` held.
unfoldable pub do_relay : List ℕ → List ℕ → Relay
unfolding do_relay_from_client do_relay_from_target
do_relay buffer target_buffer =
    let r : Relay = record { from_client = fresh buffer; from_target = fresh target_buffer } in
    do_relay_from_target (do_relay_from_client r)

-- A read of at most the size of the buffer.
abbrev Reads : Loop → List ℕ → Type 0
Reads l bytes = (l.half ≡ reading) × (length bytes ≤ length l.buffer)

-- A write of at most the buffer.
abbrev Writes : Loop → ℕ → Type 0
Writes l n = (l.half ≡ writing) × (n ≤ length l.buffer)

-- The completions of the two loops come in any order.
pub data Step (r : Relay) : Relay → Type 0 where
  client_read :
      (ec : ErrorCode) (bytes : List ℕ)
      → Reads r.from_client bytes
      → Step r (on_client_read ec bytes r)
  target_written :
      (ec : ErrorCode) (n : ℕ) → Writes r.from_client n → Step r (on_target_written ec n r)
  target_read :
      (ec : ErrorCode) (bytes : List ℕ)
      → Reads r.from_target bytes
      → Step r (on_target_read ec bytes r)
  client_written :
      (ec : ErrorCode) (n : ℕ) → Writes r.from_target n → Step r (on_client_written ec n r)

pub data Reach (b t : List ℕ) : Relay → Type 0 where
  start : Reach b t (do_relay b t)
  later : {r r' : Relay} → Reach b t r → Step r r' → Reach b t r'
