-- ===== src/Pipe.antt =====
-- zkt/fs/pipe.c: pipes. Each `while` loop that sleeps is modelled by its round, which either sleeps
-- or goes on, with interrupts off; the calls of waitq_wake_all after it run with interrupts on, so
-- that each direction counts the threads that are about to make them. A wait queue is the list of
-- the sleeping calls, and `size_t` has 32 bits.
pub mod Queue
pub mod Steps
pub mod Stream
pub mod Wakes
pub mod Calls
mod Tests
use manios.Base.{
  ℕ, zero, suc, ◌+◌, ◌-◌, ◌*◌, ◌%◌, ◌^◌, Bool, Option, none, some, true, false, not, ◌&&◌, ◌||◌,
  List, [], ◌∷◌, ◌++◌, ltb, leb, ◌==◌, if◌then◌else◌, length, take, drop,
}

-- `len` is the length of `data`; the message's links are its place in a list.
pub record Message : Type 0 where
  pub data_bytes : List ℕ
  pub pos : ℕ

-- A sleeping call, and the number of bytes that it was called for.
pub record Waiter : Type 0 where
  pub thread : ℕ
  pub len : ℕ

pub record Direction : Type 0 where
  pub messages : List Message
  pub bytes : ℕ
  pub readable : List Waiter
  pub writable : List Waiter
  -- The calls of waitq_wake_all that threads are about to make.
  pub readable_wakes : ℕ
  pub writable_wakes : ℕ

-- The ends are `false` for 0 and `true` for 1: `not side` is `1 - side`.
pub record Pipe : Type 0 where
  pub dir : Bool → Direction
  pub is_open : Bool → Bool

abbrev pub pipe_capacity : ℕ
pipe_capacity = 64 * 1024

abbrev pub message_max : ℕ
message_max = 256 * 1024

pub data Errno : Type 0 where
  einval enomem epipe : Errno

pub data Read : Type 0 where
  read_sleeps : Direction → Read
  end_of_file : Read
  received : List ℕ → Direction → Read

pub data Write : Type 0 where
  write_sleeps : Direction → Write
  failed : Errno → Write
  sent : Direction → Write

-- `m->len - m->pos < len ? m->len - m->pos : len`
pub read_len : Message → ℕ → ℕ
read_len m len =
    let left = (length m.data_bytes + 2 ^ 32 - m.pos) % 2 ^ 32 in if ltb left len then left else len

pub read_message : Direction → ℕ → Message → List Message → Read
read_message d len m ms =
    let n = read_len m len in
    let copied = take n (drop m.pos m.data_bytes) in
    if m.pos + n == length m.data_bytes
    then received copied (record d {
      messages = ms;
      bytes = (d.bytes + 2 ^ 32 - length m.data_bytes) % 2 ^ 32;
      writable_wakes = d.writable_wakes + 1;
    })
    else received copied (record d { messages = record m { pos = m.pos + n } ∷ ms })

-- One round of pipe_recv on its direction, whose writer is open or not.
pub recv_round : ℕ → Bool → Direction → ℕ → List Message → Read
recv_round thread writer_open d len [] =
    if writer_open
    then read_sleeps
        (record d { readable = d.readable ++ (record { thread = thread; len = len } ∷ []) })
    else end_of_file
recv_round thread writer_open d len (m ∷ ms) = read_message d len m ms

pub pipe_recv : ℕ → Pipe → Bool → ℕ → Read
pipe_recv thread p side len =
    recv_round thread (p.is_open (not side)) (p.dir side) len (p.dir side).messages

-- One round of pipe_send on the direction that it writes, whose reader is open or not.
pub send_round : ℕ → Bool → Direction → List ℕ → Write
send_round thread reader_open d buf =
    let len = length buf in
    if reader_open && not (d.bytes == 0) && ltb pipe_capacity ((d.bytes + len) % 2 ^ 32)
    then write_sleeps
        (record d { writable = d.writable ++ (record { thread = thread; len = len } ∷ []) })
    else if not reader_open
    then failed epipe
    else sent (record d {
      messages = d.messages ++ (record { data_bytes = buf; pos = 0 } ∷ []);
      bytes = (d.bytes + len) % 2 ^ 32;
      readable_wakes = d.readable_wakes + 1;
    })

-- `memory` tells whether kmalloc gives memory for the message. A writer that is woken goes through
-- the checks again in the model, with the memory that it has.
pub pipe_send : ℕ → Bool → Pipe → Bool → List ℕ → Write
pipe_send thread memory p side buf =
    if ltb message_max (length buf)
    then failed einval
    else if not memory
    then failed enomem
    else send_round thread (p.is_open (not side)) (p.dir (not side)) buf

pub end_poll : Pipe → Bool → Bool
end_poll p side = elim ((p.dir side).messages) [ [] ↦ not (p.is_open (not side)) | m ∷ ms ↦ true ]

-- `f` with another value at `side`.
pub replaced {ℓ} : {A : Type ℓ} → (Bool → A) → Bool → A → Bool → A
replaced f true x true = x
replaced f true x false = f false
replaced f false x true = f true
replaced f false x false = x

abbrev pub set_dir : Pipe → Bool → Direction → Pipe
set_dir p side d = record p { dir = replaced p.dir side d }

abbrev pub free_messages : Direction → Direction
free_messages d = record d { messages = []; bytes = 0 }

pub data Release : Type 0 where
  released : Pipe → Release
  freed : Pipe → Release

-- The end is closed, and the sleepers that it may have kept waiting are to be woken.
abbrev pub close_end : Pipe → Bool → Pipe
close_end p side =
    let mine = p.dir side in
    let other = p.dir (not side) in
    record p {
      is_open = replaced p.is_open side false;
      dir =
          replaced
            (replaced p.dir (not side) (record other { readable_wakes = other.readable_wakes + 1 }))
            side (record mine { writable_wakes = mine.writable_wakes + 1 });
    }

pub end_release : Pipe → Bool → Release
end_release p side =
    let p' = close_end p side in
    if p'.is_open (not side)
    then released p'
    else freed (record p' { dir = λ i. free_messages (p'.dir i) })

-- waitq_wake_all of the two queues of a direction.
pub wake_readers : Direction → Direction
wake_readers d = record d { readable = []; readable_wakes = d.readable_wakes - 1 }

pub wake_writers : Direction → Direction
wake_writers d = record d { writable = []; writable_wakes = d.writable_wakes - 1 }

-- A reader with a deadline leaves its queue when it passes: its call fails with ETIMEDOUT.
pub time_out : ℕ → List Waiter → List Waiter
time_out thread [] = []
time_out thread (w ∷ ws) =
    let rest = time_out thread ws in if w.thread == thread then ws else w ∷ rest

abbrev pub new_direction : Direction
new_direction = record {
  messages = [];
  bytes = 0;
  readable = [];
  writable = [];
  readable_wakes = 0;
  writable_wakes = 0;
}

pub new_pipe : Pipe
new_pipe = record { dir = λ i. new_direction; is_open = λ i. true }

-- Whether kmalloc gives memory; none for -ENOMEM.
pipe_create : Bool → Option Pipe
unfolding new_pipe
pipe_create false = none
pipe_create true = some new_pipe
