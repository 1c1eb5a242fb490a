-- ===== src/Pipe/Tests.antt =====
-- A pipe whose end 0 writes three bytes and whose end 1 reads two of them.
use manios.Base.{
  ℕ, ◌≤◌, ◌<◌, ◌≡◌, ◌≢◌, refl, ◌⊎◌, true, false, not, List, [], ◌∷◌, ◌++◌, length, arith,
}
use manios.Pipe.{
  Direction, Pipe, read_sleeps, received, sent, failed, einval, enomem, message_max, pipe_recv,
  pipe_send, recv_round, read_message, read_len, send_round, end_poll, new_pipe, set_dir, replaced,
  new_direction,
}
use manios.Pipe.Queue.{IsValid, Writes, total, remaining}
use manios.Pipe.Steps.{
  Event, took, wrote, reads, writes, Reach, start, after, wrote_bytes, took_bytes,
}
use manios.Pipe.Stream.{Reach-Streams}
use manios.Pipe.Wakes.{Awake, Reach-Awake, Reach-no_deadlock}
use manios.Pipe.Calls.{pipe_send-Writes_else, end_poll-pipe_recv}

abbrev three : List ℕ
three = 10 ∷ 20 ∷ 30 ∷ []

abbrev held : Direction
held = record new_direction {
  messages = record { data_bytes = three; pos = 0 } ∷ [];
  bytes = 3;
  readable_wakes = 1;
}

abbrev read_once : Direction
read_once = record held { messages = record { data_bytes = three; pos = 2 } ∷ [] }

writes_run : pipe_send 1 true new_pipe false three ≡ sent held
unfolding pipe_send send_round new_pipe
writes_run = refl

abbrev written : Pipe
written = set_dir new_pipe true held

reads_run : pipe_recv 2 written true 2 ≡ received (10 ∷ 20 ∷ []) read_once
unfolding pipe_recv recv_round read_message read_len new_pipe replaced
reads_run = refl

abbrev log : List Event
log = took true (10 ∷ 20 ∷ []) ∷ wrote true three ∷ []

reached : Reach (set_dir written true read_once) log
unfolding new_pipe replaced
reached =
    after (after start (writes new_pipe false 1 three held refl writes_run))
      (reads written true 2 2 (10 ∷ 20 ∷ []) read_once refl reads_run)

Reach-Streams_example :
    (wrote_bytes true log
      ≡ took_bytes true log ++ remaining ((set_dir written true read_once).dir true).messages)
    × (((set_dir written true read_once).dir true).bytes
        ≡ total ((set_dir written true read_once).dir true).messages)
    × (((set_dir written true read_once).dir true).bytes ≤ message_max)
Reach-Streams_example = Reach-Streams true reached

Reach-Awake_example :
    Awake
      ((set_dir written true read_once).is_open true)
      ((set_dir written true read_once).is_open (not true))
      ((set_dir written true read_once).dir true)
Reach-Awake_example = Reach-Awake true reached

quiet_wakes : ((set_dir written true read_once).dir false).readable_wakes ≡ 0
unfolding new_pipe replaced
quiet_wakes = refl

quiet_write_wakes : ((set_dir written true read_once).dir false).writable_wakes ≡ 0
unfolding new_pipe replaced
quiet_write_wakes = refl

Reach-no_deadlock_example :
    (((set_dir written true read_once).dir false).readable ≡ [])
    ⊎ (((set_dir written true read_once).dir false).writable ≡ [])
Reach-no_deadlock_example = Reach-no_deadlock false reached quiet_wakes quiet_write_wakes

new-IsValid : IsValid (new_pipe.dir true)
unfolding new_pipe total
new-IsValid = record { counted = refl; heads = tt; small = omega arith }

pipe_send-Writes_else_example :
    ((message_max < length three) × (pipe_send 1 true new_pipe false three ≡ failed einval))
    ⊎ ((length three ≤ message_max)
        × (true ≡ false)
        × (pipe_send 1 true new_pipe false three ≡ failed enomem))
    ⊎ ((length three ≤ message_max)
        × (true ≡ true)
        × Writes
            (new_pipe.is_open (not false))
            (new_pipe.dir (not false))
            three
            (pipe_send 1 true new_pipe false three))
pipe_send-Writes_else_example = pipe_send-Writes_else 1 true new_pipe false three new-IsValid

end_poll-pipe_recv_example :
    ((end_poll written true ≡ true)
      × ((d : Direction) → pipe_recv 2 written true 2 ≢ read_sleeps d))
    ⊎ ((end_poll written true ≡ false)
        × (d : Direction) × (pipe_recv 2 written true 2 ≡ read_sleeps d))
end_poll-pipe_recv_example = end_poll-pipe_recv 2 written true 2
