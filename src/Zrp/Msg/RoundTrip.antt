-- ===== src/Zrp/Msg/RoundTrip.antt =====
-- A whole message: `zmsg_start`, the fields, `zmsg_finish`, and the receiver's parse of it.
use manios.Base.{
  ℕ, ◌+◌, ◌^◌, ◌≤◌, ◌<◌, ◌≡◌, refl, sym, ap, ◌∙◌, true, false, some, List, [], ◌∷◌, ◌++◌, arith,
  length, map, take, append-nil, All, ltb, dec_lt,
}
use manios.Base.Bytes.{blit, take-drop-blit, blit_zero, take-append, length-blit}
use manios.Zrp.Msg.{Zmsg, le, start, finish, open_msg}
use manios.Zrp.Msg.Put.{
  Field, encode, encodes, Fits, puts, IsReady, wrote, wrote-IsReady, wrote-wrote, put8_lem,
  put16_lem, puts_lem, puts_full, puts_bad, put8_bad, put16_bad,
}
use manios.Zrp.Msg.Get.{IsAt}
use manios.Zrp.Msg.Read.{want, FitsOut, gets, gets_lem}

-- The cursor of `zmsg_start` before the type is put.
abbrev fresh : List ℕ → ℕ → Zmsg
fresh buf cap = record { buf = buf; cap = cap; pos = 4; bad = false }

module _ (buf : List ℕ) (cap type tag : ℕ) (whole : length buf ≡ cap) (small : cap < 2 ^ 32) where
  fresh-IsReady : 7 ≤ cap → IsReady (fresh buf cap)
  fresh-IsReady h = record { good = refl; inside = omega arith; whole = whole; small = small }

  start_lem : 7 ≤ cap → start buf cap type tag ≡ wrote (fresh buf cap) (le 1 type ++ le 2 tag)
  unfolding start le
  start_lem h = ground (
    arith,
    put8_lem type (fresh-IsReady h) (omega arith),
    put16_lem tag typed (omega arith),
    wrote-wrote (fresh buf cap) (le 1 type) (le 2 tag),
  )
    where
      typed : IsReady (wrote (fresh buf cap) (le 1 type))
      typed = wrote-IsReady (le 1 type) (fresh-IsReady h) (omega arith)

  body_lem :
      (fs : List Field)
      → All Fits fs
      → 7 + length (encodes fs) ≤ cap
      → puts (start buf cap type tag) fs
        ≡ wrote (fresh buf cap) ((le 1 type ++ le 2 tag) ++ encodes fs)
  body_lem fs fits h = rw (start_lem (omega arith)) (
      puts_lem fs started fits (unfold le in omega arith)
      ∙ wrote-wrote (fresh buf cap) (le 1 type ++ le 2 tag) (encodes fs))
    where
      started : IsReady (wrote (fresh buf cap) (le 1 type ++ le 2 tag))
      started =
          unfold le in
          wrote-IsReady (le 1 type ++ le 2 tag) (fresh-IsReady (omega arith)) (omega arith)

-- Writing the size in front of a body at 4 frames it.
framed :
    (buf ys zs : List ℕ) (n : ℕ)
    → length ys ≡ 4
    → n ≡ 4 + length zs
    → n ≤ length buf
    → take n (blit (blit buf 4 zs) 0 ys) ≡ ys ++ zs
framed buf ys zs n four e h = rw (blit_zero (blit buf 4 zs) ys (rw length-blit (omega arith))) (
    take-append n (length zs) ys _ (omega arith)
    ∙ ap (λ t. ys ++ t) (rw four (take-drop-blit buf 4 zs (omega arith))))

-- The message on the wire: its size, type and tag before the fields.
abbrev pub message : ℕ → ℕ → List Field → List Field
message type tag fs = Field.u32 (7 + length (encodes fs)) ∷ Field.u8 type ∷ Field.u16 tag ∷ fs

-- `zmsg_finish` returns the length of the message, and the buffer begins with the message.
pub sent :
    (buf : List ℕ) (cap type tag : ℕ) (fs : List Field)
    → length buf ≡ cap
    → cap < 2 ^ 32
    → All Fits fs
    → 7 + length (encodes fs) ≤ cap
    → let (n, m) = finish (puts (start buf cap type tag) fs) in
      (n ≡ 7 + length (encodes fs)) × (take n m.buf ≡ encodes (message type tag fs))
unfolding finish encode encodes
sent buf cap type tag fs whole small fits h = ground (
  arith,
  body_lem buf cap type tag whole small fs fits h,
  framed buf (le 4 n) ((le 1 type ++ le 2 tag) ++ encodes fs) n refl (omega arith) (omega arith),
)
  where
    n : ℕ
    n = 7 + length (encodes fs)

-- The message parsed from the bytes on the wire.
received_lem :
    (type tag size : ℕ) (fs : List Field)
    → 7 + length (encodes fs) < 2 ^ 32
    → type < 2 ^ 8
    → tag < 2 ^ 16
    → All Fits fs
    → All (FitsOut size) fs
    → let n = 7 + length (encodes fs) in
      let sent = open_msg (encodes (message type tag fs)) n in
      gets (map (want size) (message type tag fs)) sent
      ≡ (map some (message type tag fs), record sent { pos = n })
unfolding open_msg encodes encode
received_lem type tag size fs small t8 t16 fits out = ground (
  arith,
  gets_lem {m = open_msg (encodes (message type tag fs)) (7 + length (encodes fs))} size
      (message type tag fs) [] all_ahead (small, (t8, (t16, fits))) (tt, (tt, (tt, out))),
)
  where
    all_ahead :
        IsAt
          (open_msg (encodes (message type tag fs)) (7 + length (encodes fs)))
          (encodes (message type tag fs) ++ [])
    all_ahead = record {
      good = refl;
      small = small;
      left = rw append-nil (omega arith);
      ahead = sym (append-nil (encodes (message type tag fs)));
    }

-- A message that fits its buffer, sent as the bytes that `zmsg_finish` counts, is parsed into its
-- size, type, tag and fields, the cursor is good, and nothing is left over.
pub message_round_trip :
    (buf : List ℕ) (cap type tag size : ℕ) (fs : List Field)
    → length buf ≡ cap
    → cap < 2 ^ 32
    → type < 2 ^ 8
    → tag < 2 ^ 16
    → All Fits fs
    → All (FitsOut size) fs
    → 7 + length (encodes fs) ≤ cap
    → let (n, m) = finish (puts (start buf cap type tag) fs) in
      let sent = open_msg (take n m.buf) n in
      (n ≡ 7 + length (encodes fs))
      × (gets (map (want size) (message type tag fs)) sent
          ≡ (map some (message type tag fs), record sent { pos = n }))
message_round_trip buf cap type tag size fs whole small t8 t16 fits out h = (
  s.0,
  rw (s.1, s.0) (ground (arith, received_lem type tag size fs (omega arith) t8 t16 fits out)),
)
  where
    s :
        let (n, m) = finish (puts (start buf cap type tag) fs) in
        (n ≡ 7 + length (encodes fs)) × (take n m.buf ≡ encodes (message type tag fs))
    s = sent buf cap type tag fs whole small fits h

-- A message that does not fit its buffer has length 0: the caller sends nothing.
finish_overflow :
    (buf : List ℕ) (cap type tag : ℕ) (fs : List Field)
    → length buf ≡ cap
    → cap < 2 ^ 32
    → All Fits fs
    → cap < 7 + length (encodes fs)
    → (finish (puts (start buf cap type tag) fs)).0 ≡ 0
unfolding finish
finish_overflow buf cap type tag fs whole small fits h = ground (arith, bad (dec_lt cap 7))
  where
    started : 7 ≤ cap → IsReady (wrote (fresh buf cap) (le 1 type ++ le 2 tag))
    started g =
        unfold le in
        wrote-IsReady (le 1 type ++ le 2 tag) (fresh-IsReady buf cap type tag whole small g)
          (omega arith)

    bad : Dec (cap < 7) → (puts (start buf cap type tag) fs).bad ≡ true
    bad (yes p) =
        unfold start in
        puts_bad _ fs (
          put16_bad _ tag (
            put8_bad (record { buf = buf; cap = cap; pos = 4; bad = ltb cap 7 }) type
              (ground arith)))
    bad (no p) =
        rw (start_lem buf cap type tag whole small (omega arith))
          (puts_full fs (started (omega arith)) fits (unfold le in omega arith))
