-- ===== src/Pipe/Calls.antt =====
-- The outcomes of pipe_send, and what end_poll promises of pipe_recv.
use manios.Base.{
  ℕ, ◌+◌, ◌≤◌, ◌<◌, ◌≡◌, ◌≢◌, refl, ◌⊎◌, inl, inr, Bool, true, false, not, List, [], ◌∷◌,
  if◌then◌else◌, Bool-cases, length, ltb, ◌==◌, arith,
}
use manios.Pipe.{
  Message, Direction, Pipe, read_sleeps, received, failed, einval, enomem, message_max, pipe_recv,
  pipe_send, recv_round, read_message, read_len, end_poll,
}
use manios.Pipe.Queue.{IsValid, Writes, send_round-Writes}

-- pipe_send of a buffer over 256 KiB fails with EINVAL, else without memory with ENOMEM. Otherwise
-- it sleeps, where the other end is open and its queue has bytes but no room; or it fails with
-- EPIPE, where the other end is closed; or it appends the message, and the queue then holds 64 KiB
-- at most unless it held no byte before.
pub pipe_send-Writes_else :
    (thread : ℕ) (memory : Bool) (p : Pipe) (side : Bool) (buf : List ℕ)
    → IsValid (p.dir (not side))
    → ((message_max < length buf) × (pipe_send thread memory p side buf ≡ failed einval))
      ⊎ ((length buf ≤ message_max)
          × (memory ≡ false)
          × (pipe_send thread memory p side buf ≡ failed enomem))
      ⊎ ((length buf ≤ message_max)
          × (memory ≡ true)
          × Writes
              (p.is_open (not side))
              (p.dir (not side))
              buf
              (pipe_send thread memory p side buf))
unfolding pipe_send
pipe_send-Writes_else thread memory p side buf v =
    elim (Bool-cases (ltb message_max (length buf))) [
      | inl e ↦ rw e (inl (ground (arith, e), refl))
      | inr e ↦ rw e (elim (Bool-cases memory) [
        | inl m ↦ rw m (
            inr (
              inr (
                ground (arith, e),
                refl,
                send_round-Writes thread _ (p.dir (not side)) buf (ground (arith, e)) v,
              )))
        | inr m ↦ rw m (inr (inl (ground (arith, e), refl, refl)))
      ])
    ]

both_received :
    (b : Bool) (xs ys : List ℕ) (d e d' : Direction)
    → (if b then received xs d else received ys e) ≢ read_sleeps d'
both_received true xs ys d e d' h = cc
both_received false xs ys d e d' h = cc

message_read :
    (d d' : Direction) (len : ℕ) (m : Message) (ms : List Message)
    → read_message d len m ms ≢ read_sleeps d'
unfolding read_message
message_read d d' len m ms =
    both_received (m.pos + read_len m len == length m.data_bytes) _ _ _ _ d'

-- Where end_poll tells that an end is ready a pipe_recv does not sleep, and elsewhere it does.
pub end_poll-pipe_recv :
    (thread : ℕ) (p : Pipe) (side : Bool) (len : ℕ)
    → ((end_poll p side ≡ true) × ((d : Direction) → pipe_recv thread p side len ≢ read_sleeps d))
      ⊎ ((end_poll p side ≡ false)
          × (d : Direction) × (pipe_recv thread p side len ≡ read_sleeps d))
unfolding end_poll pipe_recv recv_round
end_poll-pipe_recv thread p side len = go (p.dir side).messages (p.is_open (not side))
  where
    go :
        (ms : List Message) (o : Bool)
        → (((elim ms [ [] ↦ not o | m ∷ ms' ↦ true ]) ≡ true)
            × ((d : Direction) → recv_round thread o (p.dir side) len ms ≢ read_sleeps d))
          ⊎ (((elim ms [ [] ↦ not o | m ∷ ms' ↦ true ]) ≡ false)
              × (d : Direction) × (recv_round thread o (p.dir side) len ms ≡ read_sleeps d))
    go [] true = inr (refl, _, refl)
    go [] false = inl (refl, λ d e. cc)
    go (m ∷ ms) o = inl (refl, λ d. message_read (p.dir side) d len m ms)
