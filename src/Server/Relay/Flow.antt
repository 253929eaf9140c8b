-- ===== src/Server/Relay/Flow.antt =====
-- example/server/async/socks_server_async.cpp: what the two loops of `do_relay` pass on.
use socks.Base.{
  ℕ, ◌+◌, ◌-◌, ◌≤◌, ◌≡◌, refl, sym, ap, ◌∙◌, ◌⊎◌, ◌==◌, inl, inr, List, [], ◌++◌, length, take,
  length-append, length-take, length-replicate, replicate, take_all, append-nil, Bool-cases, arith,
}
use socks.Error.{ErrorCode, failed}
use socks.Server.{resize}
use socks.Server.Relay.{
  Half, reading, writing, ended, Loop, fresh, do_relay_from, do_relay_to, on_read_some,
  on_write_some, Relay, on_client_read, on_target_written, on_target_read, on_client_written,
  do_relay, Step, client_read, target_written, target_read, client_written, Reach, start, later,
}

-- One loop: `rest` is what was received and neither written nor dropped. It waits in the buffer while a
-- write is pending, and there is none while a read is. Every read has a buffer of 1024 bytes.
pub record Flow (l : Loop) : Type 0 where
  pub rest : List ℕ
  pub order : l.dropped ≡ 0 → l.delivered ++ rest ≡ l.received
  pub count : length l.delivered + l.dropped + length rest ≡ length l.received
  pub waits : l.half ≡ writing → rest ≡ l.buffer
  pub idle : l.half ≡ reading → (rest ≡ []) × (length l.buffer ≡ 1024)

pub length-resize : (n : ℕ) (buf : List ℕ) → length (resize n buf) ≡ n
length-resize n buf = omega (
  arith,
  length-append (take n buf) (replicate (n - length buf) 0),
  length-take n buf,
  length-replicate {A = ℕ} (n - length buf) 0,
)

start-Flow : (buf : List ℕ) → Flow (do_relay_from (fresh buf))
unfolding do_relay_from
start-Flow buf = record {
  rest = [];
  order = λ _. refl;
  count = omega arith;
  waits = λ h. absurd (cc);
  idle = λ _. (refl, length-resize 1024 buf);
}

-- A failure ends a loop with what it was doing.
cut-Flow : (l : Loop) → Flow l → Flow (record l { half = ended })
cut-Flow l flow = record {
  rest = flow.rest;
  order = flow.order;
  count = flow.count;
  waits = λ h. absurd (cc);
  idle = λ h. absurd (cc);
}

read_some-Flow :
    (l : Loop) (ec : ErrorCode) (bytes : List ℕ)
    → l.half ≡ reading
    → Flow l
    → Flow (on_read_some ec bytes l)
unfolding on_read_some do_relay_to
read_some-Flow l ec bytes at flow = elim (Bool-cases (failed ec)) [
  | inl e ↦ rw e (cut-Flow l flow)
  | inr e ↦
      let (none_waits, _) = flow.idle at in
      rw e (record {
        rest = bytes;
        order = λ d.
            ap (λ xs. xs ++ bytes) (sym (append-nil l.delivered) ∙ rw none_waits at (flow.order d));
        count = omega (arith, flow.count, length-append l.received bytes, ap length none_waits);
        waits = λ _. refl;
        idle = λ h. absurd (cc);
      })
]

write_some-Flow :
    (l : Loop) (ec : ErrorCode) (n : ℕ)
    → l.half ≡ writing
    → n ≤ length l.buffer
    → Flow l
    → Flow (on_write_some ec n l)
unfolding on_write_some do_relay_from
write_some-Flow l ec n at le flow = elim (Bool-cases (failed ec)) [
  | inl e ↦ rw e (cut-Flow l flow)
  | inr e ↦
      let waiting = flow.waits at in
      let whole : l.dropped + (length l.buffer - n) ≡ 0 → take n l.buffer ≡ l.buffer =
        λ d. take_all n l.buffer (omega arith) in
      rw e (record {
        rest = [];
        order = λ d.
            append-nil (l.delivered ++ take n l.buffer)
            ∙ ap (λ xs. l.delivered ++ xs) (whole d ∙ sym waiting)
            ∙ flow.order (omega arith);
        count = omega (
          arith,
          flow.count,
          length-append l.delivered (take n l.buffer),
          length-take n l.buffer,
          ap length waiting,
        );
        waits = λ h. absurd (cc);
        idle = λ _. (refl, length-resize 1024 l.buffer);
      })
]

Step-Flow :
    {r r' : Relay}
    → Step r r'
    → Flow r.from_client × Flow r.from_target
    → Flow r'.from_client × Flow r'.from_target
unfolding on_client_read on_target_written on_target_read on_client_written
Step-Flow {r} (client_read ec bytes (at, le)) (c, t) =
    (read_some-Flow r.from_client ec bytes at c, t)
Step-Flow {r} (target_written ec n (at, le)) (c, t) =
    (write_some-Flow r.from_client ec n at le c, t)
Step-Flow {r} (target_read ec bytes (at, le)) (c, t) =
    (c, read_some-Flow r.from_target ec bytes at t)
Step-Flow {r} (client_written ec n (at, le)) (c, t) =
    (c, write_some-Flow r.from_target ec n at le t)

Reach-Flow : {b t : List ℕ} {r : Relay} → Reach b t r → Flow r.from_client × Flow r.from_target
unfolding do_relay
Reach-Flow {b} {t} start = (start-Flow b, start-Flow t)
Reach-Flow (later r st) = Step-Flow st (Reach-Flow r)

-- What a loop delivered, with what it still holds: `rest` waits in the buffer while a write is pending, and is
-- empty while a read is.
abbrev pub Delivers : Loop → Type 0
Delivers l =
    (rest : List ℕ) × (length l.delivered + l.dropped + length rest ≡ length l.received)
    × (¬ (l.dropped ≡ 0) ⊎ (l.delivered ++ rest ≡ l.received))
    × (((l.half ≡ writing) × (rest ≡ l.buffer))
        ⊎ ((l.half ≡ reading) × (rest ≡ []) × (length l.buffer ≡ 1024))
        ⊎ (l.half ≡ ended))

half-cases : (h : Half) → (h ≡ writing) ⊎ (h ≡ reading) ⊎ (h ≡ ended)
half-cases writing = inl refl
half-cases reading = inr (inl refl)
half-cases ended = inr (inr refl)

Flow-Delivers : (l : Loop) → Flow l → Delivers l
Flow-Delivers l flow = (
  flow.rest,
  flow.count,
  elim (Bool-cases (l.dropped == 0)) [
    | inl e ↦ inr (flow.order (ground arith))
    | inr e ↦ inl (λ z. absurd (ground arith))
  ],
  elim (half-cases l.half) [
    | inl e ↦ inl (e, flow.waits e)
    | inr (inl e) ↦ let (empty, size) = flow.idle e in inr (inl (e, empty, size))
    | inr (inr e) ↦ inr (inr e)
  ],
)

-- In every state that the relay can reach, with the completions of its two loops in any order, and in
-- each loop: no byte is lost but those that a short write left in the buffer, which are counted; as long as
-- there are none, what was delivered and what waits are what was received, in its order; and every read
-- has a buffer of 1024 bytes and finds nothing that waits.
pub Reach-Delivers :
    {b t : List ℕ} {r : Relay} → Reach b t r → Delivers r.from_client × Delivers r.from_target
Reach-Delivers {r} h =
    let (c, t) = Reach-Flow h in (Flow-Delivers r.from_client c, Flow-Delivers r.from_target t)
