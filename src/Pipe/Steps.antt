-- ===== src/Pipe/Steps.antt =====
-- The atomic steps that the threads at the two ends of a pipe take in any order, each with the
-- bytes that it moves. After the release that closes the second end there is no pipe to step.
use manios.Base.{ℕ, ◌<◌, ◌≡◌, refl, Bool, true, false, not, List, [], ◌∷◌, ◌++◌, if◌then◌else◌}
use manios.Pipe.{
  Direction, Pipe, read_sleeps, received, write_sleeps, sent, pipe_recv, pipe_send, replaced,
  set_dir, released, freed, close_end, end_release, wake_readers, wake_writers, time_out, new_pipe,
}

-- What passes through the direction that the end `i` reads.
pub data Event : Type 0 where
  wrote : Bool → List ℕ → Event
  took : Bool → List ℕ → Event
  quiet : Event

pub data Step : Pipe → Event → Pipe → Type 0 where
  reads :
      (p : Pipe) (side : Bool) (thread len : ℕ) (bs : List ℕ) (d : Direction)
      → p.is_open side ≡ true
      → pipe_recv thread p side len ≡ received bs d
      → Step p (took side bs) (set_dir p side d)
  read_waits :
      (p : Pipe) (side : Bool) (thread len : ℕ) (d : Direction)
      → p.is_open side ≡ true
      → pipe_recv thread p side len ≡ read_sleeps d
      → Step p quiet (set_dir p side d)
  read_times_out :
      (p : Pipe) (side : Bool) (thread : ℕ)
      → Step p quiet (
          set_dir p side (record (p.dir side) { readable = time_out thread (p.dir side).readable }))
  writes :
      (p : Pipe) (side : Bool) (thread : ℕ) (buf : List ℕ) (d : Direction)
      → p.is_open side ≡ true
      → pipe_send thread true p side buf ≡ sent d
      → Step p (wrote (not side) buf) (set_dir p (not side) d)
  write_waits :
      (p : Pipe) (side : Bool) (thread : ℕ) (buf : List ℕ) (d : Direction)
      → p.is_open side ≡ true
      → pipe_send thread true p side buf ≡ write_sleeps d
      → Step p quiet (set_dir p (not side) d)
  wakes_readers :
      (p : Pipe) (side : Bool)
      → 0 < (p.dir side).readable_wakes
      → Step p quiet (set_dir p side (wake_readers (p.dir side)))
  wakes_writers :
      (p : Pipe) (side : Bool)
      → 0 < (p.dir side).writable_wakes
      → Step p quiet (set_dir p side (wake_writers (p.dir side)))
  closes :
      (p p' : Pipe) (side : Bool)
      → p.is_open side ≡ true
      → end_release p side ≡ released p'
      → Step p quiet p'

-- What has happened to a new pipe, newest first.
pub data Reach : Pipe → List Event → Type 0 where
  start : Reach new_pipe []
  after :
      {p p' : Pipe} {e : Event} {log : List Event} → Reach p log → Step p e p' → Reach p' (e ∷ log)

-- The bytes written to the direction of end `i`, and those read from it.
unfoldable pub wrote_bytes : Bool → List Event → List ℕ
wrote_bytes i [] = []
wrote_bytes true (wrote true bs ∷ log) = wrote_bytes true log ++ bs
wrote_bytes false (wrote true bs ∷ log) = wrote_bytes false log
wrote_bytes true (wrote false bs ∷ log) = wrote_bytes true log
wrote_bytes false (wrote false bs ∷ log) = wrote_bytes false log ++ bs
wrote_bytes i (took j bs ∷ log) = wrote_bytes i log
wrote_bytes i (quiet ∷ log) = wrote_bytes i log

unfoldable pub took_bytes : Bool → List Event → List ℕ
took_bytes i [] = []
took_bytes true (took true bs ∷ log) = took_bytes true log ++ bs
took_bytes false (took true bs ∷ log) = took_bytes false log
took_bytes true (took false bs ∷ log) = took_bytes true log
took_bytes false (took false bs ∷ log) = took_bytes false log ++ bs
took_bytes i (wrote j bs ∷ log) = took_bytes i log
took_bytes i (quiet ∷ log) = took_bytes i log

pub wrote_here :
    (i : Bool) (bs : List ℕ) (log : List Event)
    → wrote_bytes i (wrote i bs ∷ log) ≡ wrote_bytes i log ++ bs
unfolding wrote_bytes
wrote_here true bs log = refl
wrote_here false bs log = refl

pub wrote_there :
    (i : Bool) (bs : List ℕ) (log : List Event)
    → wrote_bytes (not i) (wrote i bs ∷ log) ≡ wrote_bytes (not i) log
unfolding wrote_bytes
wrote_there true bs log = refl
wrote_there false bs log = refl

pub took_here :
    (i : Bool) (bs : List ℕ) (log : List Event)
    → took_bytes i (took i bs ∷ log) ≡ took_bytes i log ++ bs
unfolding took_bytes
took_here true bs log = refl
took_here false bs log = refl

pub took_there :
    (i : Bool) (bs : List ℕ) (log : List Event)
    → took_bytes (not i) (took i bs ∷ log) ≡ took_bytes (not i) log
unfolding took_bytes
took_there true bs log = refl
took_there false bs log = refl

-- What holds of the new value at `side`, and of the old one at the other end, holds at both.
pub replaced-both {ℓ κ} :
    {A : Type ℓ} (P : Bool → A → Type κ) (f : Bool → A) (side : Bool) (x : A)
    → P side x
    → P (not side) (f (not side))
    → (i : Bool) → P i (replaced f side x i)
unfolding replaced
replaced-both P f true x here there true = here
replaced-both P f true x here there false = there
replaced-both P f false x here there true = there
replaced-both P f false x here there false = here

pub replaced_self {ℓ} :
    {A : Type ℓ} (f : Bool → A) (side : Bool) (x : A) → replaced f side x side ≡ x
unfolding replaced
replaced_self f true x = refl
replaced_self f false x = refl

pub replaced_other {ℓ} :
    {A : Type ℓ} (f : Bool → A) (side : Bool) (x : A) → replaced f side x (not side) ≡ f (not side)
unfolding replaced
replaced_other f true x = refl
replaced_other f false x = refl

released_lem :
    (b : Bool) (x y p' : Pipe) → (if b then released x else freed y) ≡ released p' → p' ≡ x
released_lem true x y p' h = cc
released_lem false x y p' h = cc

pub end_release_lem :
    (p p' : Pipe) (side : Bool) → end_release p side ≡ released p' → p' ≡ close_end p side
unfolding end_release
end_release_lem p p' side h = released_lem ((close_end p side).is_open (not side)) _ _ p' h
