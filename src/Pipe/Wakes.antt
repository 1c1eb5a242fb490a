-- ===== src/Pipe/Wakes.antt =====
-- A pipe loses no wakeup: no call sleeps that could go on, but for a waitq_wake_all that is due.
use mathlib.Core.Path.{subst}
use manios.Base.{
  All-snoc, ℕ, ◌+◌, ◌≤◌, ◌<◌, ◌≡◌, refl, sym, ap, inl, inr, Bool, true, false, not, List, [], ◌∷◌,
  ◌++◌, ◌⊎◌, ◌==◌, Bool-cases, length, arith, All,
}
use manios.Pipe.{
  Message, Direction, Pipe, Read, read_sleeps, end_of_file, received, write_sleeps, sent, pipe_recv,
  recv_round, replaced, set_dir, close_end, wake_readers, wake_writers, time_out, pipe_capacity,
  Waiter, read_message, read_len, new_pipe,
}
use manios.Pipe.Queue.{total, IsValid, Writes}
use manios.Pipe.Stream.{Reach-all, pipe_send-sent, pipe_send-sleeps}
use manios.Pipe.Steps.{
  Event, Step, reads, read_waits, read_times_out, writes, write_waits, wakes_readers, wakes_writers,
  closes, Reach, start, after, replaced-both, end_release_lem,
}

-- The sleepers of a direction, whose reader and writer are open or not.
pub record Awake (reader_open writer_open : Bool) (d : Direction) : Type 0 where
  pub readers :
      (d.readable ≡ []) ⊎ (0 < d.readable_wakes) ⊎ ((d.messages ≡ []) × (writer_open ≡ true))
  pub writers :
      (d.writable ≡ [])
      ⊎ (0 < d.writable_wakes)
      ⊎ ((reader_open ≡ true)
          × (0 < d.bytes)
          × All (λ w. pipe_capacity < d.bytes + w.len) d.writable)

abbrev AfterRead : Bool → Bool → Read → Type 0
AfterRead reader_open writer_open (read_sleeps d) = Awake reader_open writer_open d
AfterRead reader_open writer_open end_of_file = Unit
AfterRead reader_open writer_open (received bs d) = Awake reader_open writer_open d

cons_ne_nil {ℓ} : {A : Type ℓ} {x : A} {xs ys : List A} → ys ≡ x ∷ xs → ys ≡ [] → ⊥
cons_ne_nil e n = cc

read_message-Awake :
    (ro wo : Bool) (d : Direction) (len : ℕ) (m : Message) (ms : List Message)
    → d.messages ≡ m ∷ ms
    → Awake ro wo d
    → AfterRead ro wo (read_message d len m ms)
unfolding read_message
read_message-Awake ro wo d len m ms e a =
    elim (Bool-cases (m.pos + read_len m len == length m.data_bytes)) [
      | inl y ↦ rw y (record { readers = still a.readers; writers = inr (inl (omega arith)) })
      | inr y ↦ rw y (record { readers = still a.readers; writers = a.writers })
    ]
  where
    still :
        {ms' : List Message}
        → (d.readable ≡ []) ⊎ (0 < d.readable_wakes) ⊎ ((d.messages ≡ []) × (wo ≡ true))
        → (d.readable ≡ []) ⊎ (0 < d.readable_wakes) ⊎ ((ms' ≡ []) × (wo ≡ true))
    still (inl n) = inl n
    still (inr (inl w)) = inr (inl w)
    still (inr (inr (n, _))) = absurd (cons_ne_nil e n)

recv_round-Awake :
    (thread : ℕ) (ro wo : Bool) (d : Direction) (len : ℕ)
    → Awake ro wo d
    → AfterRead ro wo (recv_round thread wo d len d.messages)
unfolding recv_round
recv_round-Awake thread ro wo d len a = go wo a d.messages refl
  where
    go :
        (wo : Bool)
        → Awake ro wo d
        → (ms : List Message) → d.messages ≡ ms
        → AfterRead ro wo (recv_round thread wo d len ms)
    go true a [] e = record { readers = inr (inr (e, refl)); writers = a.writers }
    go false a [] e = tt
    go wo a (m ∷ ms) e = read_message-Awake ro wo d len m ms e a

-- A call that goes to sleep is one that cannot go on.
sleeps-Awake :
    (ro wo : Bool) (d d' : Direction) (buf : List ℕ)
    → Writes ro d buf (write_sleeps d')
    → Awake ro wo d
    → Awake ro wo d'
sleeps-Awake ro wo d d' buf (open_, some, full, thread, e) a =
    subst (Awake ro wo) (sym e) (record { readers = a.readers; writers = inr (blocked a.writers) })
  where
    w : Waiter
    w = record { thread = thread; len = length buf }

    Blocked : List Waiter → Type 0
    Blocked ws = All (λ w. pipe_capacity < d.bytes + w.len) ws

    blocked :
        (d.writable ≡ [])
          ⊎ (0 < d.writable_wakes)
          ⊎ ((ro ≡ true) × (0 < d.bytes) × Blocked d.writable)
        → (0 < d.writable_wakes) ⊎ ((ro ≡ true) × (0 < d.bytes) × Blocked (d.writable ++ (w ∷ [])))
    blocked (inl n) = inr (open_, some, subst (λ ws. Blocked (ws ++ (w ∷ []))) (sym n) (full, tt))
    blocked (inr (inl n)) = inl n
    blocked (inr (inr (_, _, b))) = inr (open_, some, All-snoc _ d.writable w b full)

All-more {ℓ} :
    {A : Type ℓ} (f : A → ℕ) (c b b' : ℕ) (ws : List A)
    → b ≤ b'
    → All (λ w. c < b + f w) ws
    → All (λ w. c < b' + f w) ws
All-more f c b b' [] h a = tt
All-more f c b b' (w ∷ ws) h a = (omega (arith, a.0), All-more f c b b' ws h a.1)

sent-Awake :
    (ro wo : Bool) (d d' : Direction) (buf : List ℕ)
    → IsValid d
    → Writes ro d buf (sent d')
    → Awake ro wo d
    → Awake ro wo d'
sent-Awake ro wo d d' buf v (_, _, grown, _, e, v') a =
    subst (Awake ro wo) (sym e)
      (record { readers = inr (inl (omega arith)); writers = more a.writers })
  where
    more :
        (d.writable ≡ [])
          ⊎ (0 < d.writable_wakes)
          ⊎ ((ro ≡ true) × (0 < d.bytes) × All (λ w. pipe_capacity < d.bytes + w.len) d.writable)
        → (d.writable ≡ [])
          ⊎ (0 < d.writable_wakes)
          ⊎ ((ro ≡ true) × (0 < d'.bytes) × All (λ w. pipe_capacity < d'.bytes + w.len) d.writable)
    more (inl n) = inl n
    more (inr (inl n)) = inr (inl n)
    more (inr (inr (o, some, b))) = inr (
        inr (
          o,
          omega (arith, v.counted, v'.counted, grown),
          All-more (λ w. w.len) pipe_capacity d.bytes d'.bytes d.writable
              (omega (arith, v.counted, v'.counted, grown)) b,
        ))

-- The sleepers of both directions.
abbrev AllAwake : Pipe → Type 0
AllAwake p = (i : Bool) → Awake (p.is_open i) (p.is_open (not i)) (p.dir i)

-- A step on one direction that opens and closes nothing.
step_on :
    (p : Pipe) (side : Bool) (d : Direction)
    → Awake (p.is_open side) (p.is_open (not side)) d
    → AllAwake p
    → AllAwake (set_dir p side d)
step_on p side d here a =
    replaced-both (λ i. Awake (p.is_open i) (p.is_open (not i))) p.dir side d here (a (not side))

close_end-Awake : (p : Pipe) (side : Bool) → AllAwake p → AllAwake (close_end p side)
unfolding replaced
close_end-Awake p true a true = record {
  readers = (a true).readers;
  writers = inr (inl (omega arith));
}
close_end-Awake p true a false = record {
  readers = inr (inl (omega arith));
  writers = (a false).writers;
}
close_end-Awake p false a false = record {
  readers = (a false).readers;
  writers = inr (inl (omega arith));
}
close_end-Awake p false a true = record {
  readers = inr (inl (omega arith));
  writers = (a true).writers;
}

time_out-readers :
    (thread : ℕ) (ws : List Waiter) {Q : Type 0} → (ws ≡ []) ⊎ Q → (time_out thread ws ≡ []) ⊎ Q
unfolding time_out
time_out-readers thread [] (inl n) = inl refl
time_out-readers thread (w ∷ ws) (inl n) = absurd (cons_ne_nil refl n)
time_out-readers thread ws (inr q) = inr q

Step-Awake :
    {p p' : Pipe} {e : Event}
    → Step p e p'
    → ((i : Bool) → IsValid (p.dir i))
    → AllAwake p
    → AllAwake p'
unfolding wake_readers wake_writers pipe_recv
Step-Awake (reads p side thread len bs d _ h) v a =
    step_on p side d
      (subst (AfterRead (p.is_open side) (p.is_open (not side))) h
        (recv_round-Awake thread _ _ (p.dir side) len (a side)))
      a
Step-Awake (read_waits p side thread len d _ h) v a =
    step_on p side d
      (subst (AfterRead (p.is_open side) (p.is_open (not side))) h
        (recv_round-Awake thread _ _ (p.dir side) len (a side)))
      a
Step-Awake (read_times_out p side thread) v a =
    step_on p side _
      (record { readers = time_out-readers thread _ (a side).readers; writers = (a side).writers })
      a
Step-Awake (writes p side thread buf d _ h) v a =
    step_on p (not side) d
      (sent-Awake _ _ (p.dir (not side)) d buf (v (not side))
        (pipe_send-sent thread p side buf d (v (not side)) h) (a (not side)))
      a
Step-Awake (write_waits p side thread buf d _ h) v a =
    step_on p (not side) d
      (sleeps-Awake _ _ (p.dir (not side)) d buf
        (pipe_send-sleeps thread p side buf d (v (not side)) h) (a (not side)))
      a
Step-Awake (wakes_readers p side _) v a =
    step_on p side _ (record { readers = inl refl; writers = (a side).writers }) a
Step-Awake (wakes_writers p side _) v a =
    step_on p side _ (record { readers = (a side).readers; writers = inl refl }) a
Step-Awake (closes p p' side _ h) v a =
    subst AllAwake (sym (end_release_lem p p' side h)) (close_end-Awake p side a)

-- Of every direction of a pipe, whatever steps the threads at its ends took: a reader sleeps only
-- where a waitq_wake_all for it is due, or the queue is empty and the other end open; a writer
-- sleeps only where one is due, or this end is open and the queue, which is not empty, has no room
-- for its message.
pub Reach-Awake :
    {p : Pipe} {log : List Event} (i : Bool)
    → Reach p log
    → Awake (p.is_open i) (p.is_open (not i)) (p.dir i)
unfolding new_pipe
Reach-Awake i r = all r i
  where
    all : {p : Pipe} {log : List Event} → Reach p log → AllAwake p
    all start i = record { readers = inl refl; writers = inl refl }
    all (after r step) i = Step-Awake step (λ j. (Reach-all r j).valid) (all r) i

-- Once no waitq_wake_all is due, the readers and the writers of a direction do not all sleep.
pub Reach-no_deadlock :
    {p : Pipe} {log : List Event} (i : Bool)
    → Reach p log
    → (p.dir i).readable_wakes ≡ 0
    → (p.dir i).writable_wakes ≡ 0
    → ((p.dir i).readable ≡ []) ⊎ ((p.dir i).writable ≡ [])
unfolding total
Reach-no_deadlock {p} i r nr nw = sides (Reach-Awake i r).readers (Reach-Awake i r).writers
  where
    d : Direction
    d = p.dir i

    sides :
        (d.readable ≡ [])
          ⊎ (0 < d.readable_wakes)
          ⊎ ((d.messages ≡ []) × (p.is_open (not i) ≡ true))
        → (d.writable ≡ [])
          ⊎ (0 < d.writable_wakes)
          ⊎ ((p.is_open i ≡ true)
              × (0 < d.bytes)
              × All (λ w. pipe_capacity < d.bytes + w.len) d.writable)
        → (d.readable ≡ []) ⊎ (d.writable ≡ [])
    sides (inl n) b = inl n
    sides a (inl n) = inr n
    sides (inr (inl w)) b = absurd (omega (arith, nr))
    sides a (inr (inl w)) = absurd (omega (arith, nw))
    sides (inr (inr (n, _))) (inr (inr (_, some, _))) =
        absurd (omega (arith, some, (Reach-all r i).valid.counted, ap total n))
