-- ===== src/Pipe/Queue.antt =====
-- What a round of pipe_recv or pipe_send does to the queue of its direction.
use mathlib.Core.Path.{subst}
use manios.Base.{
  All-snoc, dec_lt, ℕ, zero, suc, ◌+◌, ◌-◌, ◌%◌, ◌^◌, ◌≤◌, ◌<◌, ◌≡◌, refl, sym, ap, ◌∙◌, ◌⊎◌, inl,
  inr, Bool, true, false, not, ◌&&◌, List, [], ◌∷◌, ◌++◌, arith, ltb, ◌==◌, length, take, drop, All,
  append-nil, append_assoc, take-append-drop, length-drop, Bool-cases, min,
}
use manios.Pipe.{
  Message, Direction, Read, read_sleeps, end_of_file, received, Write, write_sleeps, failed, sent,
  read_len, read_message, recv_round, send_round, pipe_capacity, message_max, epipe,
}

unfoldable pub total : List Message → ℕ
total [] = 0
total (m ∷ ms) = length m.data_bytes + total ms

-- The bytes of a message, and of a queue, that are still to be read.
abbrev pub unread : Message → List ℕ
unread m = drop m.pos m.data_bytes

unfoldable pub remaining : List Message → List ℕ
remaining [] = []
remaining (m ∷ ms) = unread m ++ remaining ms

pub record IsValid (d : Direction) : Type 0 where
  pub counted : d.bytes ≡ total d.messages
  pub heads : All (λ m. m.pos ≤ length m.data_bytes) d.messages
  pub small : d.bytes ≤ message_max

-- What a round of pipe_recv comes to.
abbrev pub Reads : Bool → Direction → ℕ → Read → Type 0
Reads writer_open d len (read_sleeps d') =
    (writer_open ≡ true) × (d.messages ≡ []) × (d' ≡ record d { readable = d'.readable })
Reads writer_open d len end_of_file = (writer_open ≡ false) × (d.messages ≡ [])
Reads writer_open d len (received bs d') =
    (m : Message) × (ms : List Message) × (d.messages ≡ m ∷ ms)
    × (bs ≡ take len (unread m))
    × (remaining d.messages ≡ bs ++ remaining d'.messages)
    × IsValid d'

take-all {ℓ} : {A : Type ℓ} (n : ℕ) (xs : List A) → length xs ≤ n → take n xs ≡ xs
take-all zero [] h = refl
take-all zero (x ∷ xs) h = absurd (omega arith)
take-all (suc n) [] h = refl
take-all (suc n) (x ∷ xs) h = ap (λ r. x ∷ r) (take-all n xs (omega arith))

drop-add {ℓ} : {A : Type ℓ} (m n : ℕ) (xs : List A) → drop (m + n) xs ≡ drop n (drop m xs)
drop-add zero n xs = ap (λ k. drop k xs) (omega arith)
drop-add {A = A} (suc m) n [] = drop-nil (suc m + n) ∙ sym (drop-nil n)
  where
    drop-nil : (k : ℕ) → drop {A = A} k [] ≡ []
    drop-nil zero = refl
    drop-nil (suc k) = refl
drop-add (suc m) n (x ∷ xs) = ap (λ k. drop k (x ∷ xs)) (succ_out m n) ∙ drop-add m n xs
  where
    succ_out : (m n : ℕ) → suc m + n ≡ suc (m + n)
    succ_out m n = omega arith

read_len_lem :
    (m : Message) (len : ℕ)
    → m.pos ≤ length m.data_bytes
    → length m.data_bytes ≤ message_max
    → read_len m len ≡ min (length m.data_bytes - m.pos) len
unfolding read_len
read_len_lem m len h small = ground arith

take-read_len :
    (m : Message) (len : ℕ)
    → m.pos ≤ length m.data_bytes
    → length m.data_bytes ≤ message_max
    → take (read_len m len) (unread m) ≡ take len (unread m)
take-read_len m len h small = elim (dec_lt len (length m.data_bytes - m.pos)) [
  | yes p ↦ ap (λ k. take k (unread m)) (omega (arith, read_len_lem m len h small))
  | no p ↦
      take-all (read_len m len) (unread m)
        (omega (arith, read_len_lem m len h small, length-drop m.pos m.data_bytes))
      ∙ sym (take-all len (unread m) (omega (arith, length-drop m.pos m.data_bytes)))
]

module _ (writer_open : Bool) (d : Direction) (len : ℕ) (m : Message) (ms : List Message)
    (e : d.messages ≡ m ∷ ms) (v : IsValid d) where
  heads_valid : All (λ m. m.pos ≤ length m.data_bytes) (m ∷ ms)
  heads_valid = subst (All (λ m. m.pos ≤ length m.data_bytes)) e v.heads

  counted_head : d.bytes ≡ length m.data_bytes + total ms
  unfolding total
  counted_head = v.counted ∙ ap total e

  copied_lem : m.pos + read_len m len ≤ length m.data_bytes
  copied_lem = omega (arith, read_len_lem m len heads_valid.0 head_small, heads_valid.0)
    where
      head_small : length m.data_bytes ≤ message_max
      head_small = omega (arith, counted_head, v.small)

  copied_take : take (read_len m len) (unread m) ≡ take len (unread m)
  copied_take = take-read_len m len heads_valid.0 (omega (arith, counted_head, v.small))

  remaining_head : remaining d.messages ≡ unread m ++ remaining ms
  unfolding remaining
  remaining_head = ap remaining e

  rest_of_head :
      unread m ++ remaining ms
      ≡ take (read_len m len) (unread m)
        ++ (drop (m.pos + read_len m len) m.data_bytes ++ remaining ms)
  rest_of_head =
      ap (λ r. r ++ remaining ms) (sym (take-append-drop (read_len m len) (unread m)))
      ∙ append_assoc (take (read_len m len) (unread m)) (drop (read_len m len) (unread m))
          (remaining ms)
      ∙ ap (λ r. take (read_len m len) (unread m) ++ (r ++ remaining ms))
          (sym (drop-add m.pos (read_len m len) m.data_bytes))

  read_message-Reads : Reads writer_open d len (read_message d len m ms)
  unfolding read_message total remaining
  read_message-Reads = elim (Bool-cases (m.pos + read_len m len == length m.data_bytes)) [
    | inl y ↦ rw y (
      m,
      ms,
      e,
      copied_take,
      remaining_head
          ∙ ap (λ r. r ++ remaining ms)
              (sym (
                take-all (read_len m len) (unread m)
                  (ground (arith, y, length-drop m.pos m.data_bytes)))),
      record {
        counted = omega (arith, counted_head, v.small);
        heads = heads_valid.1;
        small = omega (arith, counted_head, v.small);
      },
    )
    | inr y ↦ rw y (
      m,
      ms,
      e,
      copied_take,
      remaining_head ∙ rest_of_head,
      record { counted = counted_head; heads = (copied_lem, heads_valid.1); small = v.small },
    )
  ]

pub recv_round-Reads :
    (thread : ℕ) (writer_open : Bool) (d : Direction) (len : ℕ)
    → IsValid d
    → Reads writer_open d len (recv_round thread writer_open d len d.messages)
unfolding recv_round
recv_round-Reads thread writer_open d len v = go d.messages refl
  where
    go :
        (ms : List Message)
        → d.messages ≡ ms
        → Reads writer_open d len (recv_round thread writer_open d len ms)
    go [] e = elim (Bool-cases writer_open) [
      | inl y ↦ rw y (refl, e, refl)
      | inr y ↦ rw y (refl, e)
    ]
    go (m ∷ ms) e = read_message-Reads writer_open d len m ms e v

total-append :
    (ms : List Message) (m : Message) → total (ms ++ (m ∷ [])) ≡ total ms + length m.data_bytes
unfolding total
total-append [] m = omega arith
total-append (x ∷ ms) m = omega (arith, total-append ms m)

remaining-append : (ms ns : List Message) → remaining (ms ++ ns) ≡ remaining ms ++ remaining ns
unfolding remaining
remaining-append [] ns = refl
remaining-append (m ∷ ms) ns =
    ap (λ r. unread m ++ r) (remaining-append ms ns)
    ∙ sym (append_assoc (unread m) (remaining ms) (remaining ns))

-- What a round of pipe_send comes to.
abbrev pub Writes : Bool → Direction → List ℕ → Write → Type 0
Writes reader_open d buf (write_sleeps d') =
    (reader_open ≡ true)
    × (0 < d.bytes)
    × (pipe_capacity < d.bytes + length buf)
    × (thread : ℕ) × (d'
        ≡ record d { writable = d.writable ++ (record { thread = thread; len = length buf } ∷ []) })
Writes reader_open d buf (failed e) = (reader_open ≡ false) × (e ≡ epipe)
Writes reader_open d buf (sent d') =
    (reader_open ≡ true)
    × (remaining d'.messages ≡ remaining d.messages ++ buf)
    × (total d'.messages ≡ total d.messages + length buf)
    × ((d'.bytes ≤ pipe_capacity) ⊎ (d.bytes ≡ 0))
    × (d' ≡ record d {
      messages = d'.messages;
      bytes = d'.bytes;
      readable_wakes = d.readable_wakes + 1;
    })
    × IsValid d'

pub send_round-Writes :
    (thread : ℕ) (reader_open : Bool) (d : Direction) (buf : List ℕ)
    → length buf ≤ message_max
    → IsValid d
    → Writes reader_open d buf (send_round thread reader_open d buf)
unfolding send_round remaining
send_round-Writes thread false d buf h v = (refl, refl)
send_round-Writes thread true d buf h v = elim (Bool-cases (full)) [
  | inl y ↦ rw y (refl, ground (arith, y), ground (arith, y, v.small), thread, refl)
  | inr y ↦ rw y (
    refl,
    remaining-append d.messages _ ∙ ap (λ r. remaining d.messages ++ r) (append-nil buf),
    total-append d.messages _,
    accepted (ground (arith, y, v.small)),
    refl,
    record {
      counted = omega (arith, total-append d.messages _, v.counted, v.small);
      heads = All-snoc _ d.messages _ v.heads (omega arith);
      small = ground (arith, y, v.small);
    },
  )
]
  where
    accepted :
        (d.bytes + length buf ≤ pipe_capacity) ⊎ (d.bytes ≡ 0)
        → ((d.bytes + length buf) % 2 ^ 32 ≤ pipe_capacity) ⊎ (d.bytes ≡ 0)
    accepted (inl a) = inl (omega arith)
    accepted (inr a) = inr a

    full : Bool
    full = not (d.bytes == 0) && ltb pipe_capacity ((d.bytes + length buf) % 2 ^ 32)
