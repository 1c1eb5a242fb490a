-- ===== src/Pipe/Stream.antt =====
-- A pipe loses, invents and reorders no byte.
use mathlib.Core.Path.{subst}
use manios.Base.{
  ℕ, ◌≤◌, ◌≡◌, refl, sym, ap, ◌∙◌, inl, inr, Bool, true, not, List, ◌∷◌, ◌++◌, ◌⊎◌, ltb, Bool-cases,
  append_assoc, length, arith, All,
}
use manios.Pipe.{
  Message, Direction, Pipe, read_sleeps, received, write_sleeps, sent, failed, pipe_recv, pipe_send,
  replaced, wake_readers, wake_writers, message_max, einval, new_pipe,
}
use manios.Pipe.Queue.{
  total, remaining, IsValid, Reads, Writes, recv_round-Reads, send_round-Writes,
}
use manios.Pipe.Steps.{
  Event, wrote, took, quiet, Step, reads, read_waits, read_times_out, writes, write_waits,
  wakes_readers, wakes_writers, closes, Reach, start, after, wrote_bytes, took_bytes, wrote_here,
  wrote_there, took_here, took_there, replaced-both, replaced_self, end_release_lem,
}

pub pipe_recv-Reads :
    (thread : ℕ) (p : Pipe) (side : Bool) (len : ℕ)
    → IsValid (p.dir side)
    → Reads (p.is_open (not side)) (p.dir side) len (pipe_recv thread p side len)
unfolding pipe_recv
pipe_recv-Reads thread p side len v = recv_round-Reads thread _ (p.dir side) len v

pub pipe_send-Writes :
    (thread : ℕ) (p : Pipe) (side : Bool) (buf : List ℕ)
    → IsValid (p.dir (not side))
    → Writes (p.is_open (not side)) (p.dir (not side)) buf (pipe_send thread true p side buf)
      ⊎ (pipe_send thread true p side buf ≡ failed einval)
unfolding pipe_send
pipe_send-Writes thread p side buf v = elim (Bool-cases (ltb message_max (length buf))) [
  | inl e ↦ rw e (inr refl)
  | inr e ↦ rw e (inl (send_round-Writes thread _ (p.dir (not side)) buf (ground (arith, e)) v))
]

pub pipe_send-sent :
    (thread : ℕ) (p : Pipe) (side : Bool) (buf : List ℕ) (d : Direction)
    → IsValid (p.dir (not side))
    → pipe_send thread true p side buf ≡ sent d
    → Writes (p.is_open (not side)) (p.dir (not side)) buf (sent d)
pipe_send-sent thread p side buf d v h = elim (pipe_send-Writes thread p side buf v) [
  | inl w ↦ subst (Writes (p.is_open (not side)) (p.dir (not side)) buf) h w
  | inr e ↦ absurd (refused (sym h ∙ e))
]
  where
    refused : sent d ≡ failed einval → ⊥
    refused x = cc

pub pipe_send-sleeps :
    (thread : ℕ) (p : Pipe) (side : Bool) (buf : List ℕ) (d : Direction)
    → IsValid (p.dir (not side))
    → pipe_send thread true p side buf ≡ write_sleeps d
    → Writes (p.is_open (not side)) (p.dir (not side)) buf (write_sleeps d)
pipe_send-sleeps thread p side buf d v h = elim (pipe_send-Writes thread p side buf v) [
  | inl w ↦ subst (Writes (p.is_open (not side)) (p.dir (not side)) buf) h w
  | inr e ↦ absurd (refused (sym h ∙ e))
]
  where
    refused : write_sleeps d ≡ failed einval → ⊥
    refused x = cc

-- The bytes that a direction holds are those that were written to it and not yet read.
pub record Streams (log : List Event) (i : Bool) (d : Direction) : Type 0 where
  pub valid : IsValid d
  pub stream : wrote_bytes i log ≡ took_bytes i log ++ remaining d.messages

-- A step that leaves the queue alone.
same_queue :
    (log : List Event) (i : Bool) {d d' : Direction}
    → d'.messages ≡ d.messages
    → d'.bytes ≡ d.bytes
    → Streams log i d
    → Streams (quiet ∷ log) i d'
unfolding wrote_bytes took_bytes
same_queue log i {d} {d'} m b s = record {
  valid = record {
    counted = b ∙ s.valid.counted ∙ ap total (sym m);
    heads = subst (All (λ x. x.pos ≤ length x.data_bytes)) (sym m) s.valid.heads;
    small = omega (arith, b, s.valid.small);
  };
  stream = s.stream ∙ ap (λ r. took_bytes i log ++ remaining r) (sym m);
}

stream_read :
    (log : List Event) (i writer_open : Bool) (d d' : Direction) (len : ℕ) (bs : List ℕ)
    → Reads writer_open d len (received bs d')
    → Streams log i d
    → Streams (took i bs ∷ log) i d'
unfolding wrote_bytes
stream_read log i writer_open d d' len bs (m, ms, _, _, moved, v) s = record {
  valid = v;
  stream =
      s.stream
      ∙ ap (λ r. took_bytes i log ++ r) moved
      ∙ sym (append_assoc (took_bytes i log) bs (remaining d'.messages))
      ∙ ap (λ r. r ++ remaining d'.messages) (sym (took_here i bs log));
}

stream_written :
    (log : List Event) (i reader_open : Bool) (d d' : Direction) (buf : List ℕ)
    → Writes reader_open d buf (sent d')
    → Streams log i d
    → Streams (wrote i buf ∷ log) i d'
unfolding took_bytes
stream_written log i reader_open d d' buf (_, moved, _, _, _, v) s = record {
  valid = v;
  stream =
      wrote_here i buf log
      ∙ ap (λ r. r ++ buf) s.stream
      ∙ append_assoc (took_bytes i log) (remaining d.messages) buf
      ∙ ap (λ r. took_bytes i log ++ r) (sym moved);
}

-- What passes through one direction is nothing to the other.
stream_there_read :
    (log : List Event) (i : Bool) (bs : List ℕ) (d : Direction)
    → Streams log (not i) d
    → Streams (took i bs ∷ log) (not i) d
unfolding wrote_bytes
stream_there_read log i bs d s = record {
  valid = s.valid;
  stream = s.stream ∙ ap (λ r. r ++ remaining d.messages) (sym (took_there i bs log));
}

stream_there_written :
    (log : List Event) (i : Bool) (bs : List ℕ) (d : Direction)
    → Streams log (not i) d
    → Streams (wrote i bs ∷ log) (not i) d
unfolding took_bytes
stream_there_written log i bs d s = record {
  valid = s.valid;
  stream = wrote_there i bs log ∙ s.stream;
}

-- A quiet step on one direction.
quiet_at :
    {log : List Event} (f : Bool → Direction) (side : Bool) (d : Direction)
    → d.messages ≡ (f side).messages
    → d.bytes ≡ (f side).bytes
    → ((i : Bool) → Streams log i (f i))
    → (i : Bool) → Streams (quiet ∷ log) i (replaced f side d i)
quiet_at {log} f side d m b s =
    replaced-both (Streams (quiet ∷ log)) f side d (same_queue log side m b (s side))
      (same_queue log (not side) refl refl (s (not side)))

pub Step-Streams :
    {p p' : Pipe} {e : Event} {log : List Event}
    → Step p e p'
    → ((i : Bool) → Streams log i (p.dir i))
    → (i : Bool) → Streams (e ∷ log) i (p'.dir i)
unfolding wake_readers wake_writers
Step-Streams {log = log} (reads p side thread len bs d _ h) s =
    replaced-both (Streams (took side bs ∷ log)) p.dir side d
      (stream_read log side (p.is_open (not side)) (p.dir side) d len bs
        (subst (Reads (p.is_open (not side)) (p.dir side) len) h
          (pipe_recv-Reads thread p side len (s side).valid))
        (s side))
      (stream_there_read log side bs (p.dir (not side)) (s (not side)))
Step-Streams (read_waits p side thread len d _ h) s =
    quiet_at p.dir side d (ap messages_of waits.2) (ap bytes_of waits.2) s
  where
    messages_of : Direction → List Message
    messages_of x = x.messages

    bytes_of : Direction → ℕ
    bytes_of x = x.bytes

    waits : Reads (p.is_open (not side)) (p.dir side) len (read_sleeps d)
    waits =
        subst (Reads (p.is_open (not side)) (p.dir side) len) h
          (pipe_recv-Reads thread p side len (s side).valid)
Step-Streams (read_times_out p side thread) s = quiet_at p.dir side _ refl refl s
Step-Streams {log = log} (writes p side thread buf d _ h) s =
    replaced-both (Streams (wrote (not side) buf ∷ log)) p.dir (not side) d
      (stream_written log (not side) (p.is_open (not side)) (p.dir (not side)) d buf
        (pipe_send-sent thread p side buf d (s (not side)).valid h) (s (not side)))
      (stream_there_written log (not side) buf (p.dir (not (not side))) (s (not (not side))))
Step-Streams (write_waits p side thread buf d _ h) s =
    quiet_at p.dir (not side) d (ap messages_of waits.4) (ap bytes_of waits.4) s
  where
    messages_of : Direction → List Message
    messages_of x = x.messages

    bytes_of : Direction → ℕ
    bytes_of x = x.bytes

    waits : Writes (p.is_open (not side)) (p.dir (not side)) buf (write_sleeps d)
    waits = pipe_send-sleeps thread p side buf d (s (not side)).valid h
Step-Streams (wakes_readers p side _) s = quiet_at p.dir side _ refl refl s
Step-Streams (wakes_writers p side _) s = quiet_at p.dir side _ refl refl s
Step-Streams {log = log} (closes p p' side _ h) s =
    subst (λ x. (i : Bool) → Streams (quiet ∷ log) i (x.dir i)) (sym (end_release_lem p p' side h))
      (replaced-both (Streams (quiet ∷ log)) (replaced p.dir (not side) _) side _
        (same_queue log side refl refl (s side))
        (subst (Streams (quiet ∷ log) (not side)) (sym (replaced_self p.dir (not side) _))
          (same_queue log (not side) refl refl (s (not side)))))

pub Reach-all : {p : Pipe} {log : List Event} → Reach p log → (i : Bool) → Streams log i (p.dir i)
unfolding new_pipe total remaining wrote_bytes took_bytes
Reach-all start i = record {
  valid = record { counted = refl; heads = tt; small = omega arith };
  stream = refl;
}
Reach-all (after r step) i = Step-Streams step (Reach-all r) i

-- Of every direction of a pipe, whatever steps the threads at its ends took: the bytes that were
-- written to it are those that were read from it followed by those that it holds, in order; its
-- count of bytes is that of its messages, and is at most the greatest message.
pub Reach-Streams :
    {p : Pipe} {log : List Event} (i : Bool)
    → Reach p log
    → (wrote_bytes i log ≡ took_bytes i log ++ remaining (p.dir i).messages)
      × ((p.dir i).bytes ≡ total (p.dir i).messages)
      × ((p.dir i).bytes ≤ message_max)
Reach-Streams i r =
    ((Reach-all r i).stream, (Reach-all r i).valid.counted, (Reach-all r i).valid.small)
