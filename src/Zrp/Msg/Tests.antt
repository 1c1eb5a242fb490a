-- ===== src/Zrp/Msg/Tests.antt =====
-- A Twalk message put together and taken apart, and the theorems at it.
use manios.Base.{
  ℕ, ◌+◌, ◌≡◌, refl, some, List, [], ◌∷◌, arith, length, map, take, All, replicate, ◌≢◌,
}
use manios.Zrp.Msg.{
  type_code, start, finish, open_msg, put8, put16, put32, putbytes, putstr, putstat, file,
  VnodeType,
}
use manios.Zrp.Msg.Put.{Field, encode, encodes, puts, put, Fits}
use manios.Zrp.Msg.Read.{want, gets}
use manios.Zrp.Msg.RoundTrip.{message, message_round_trip}

abbrev buffer : List ℕ
buffer = replicate 40 0

-- fid[4] newfid[4] name[s], and a stat, as an Rwalk has it
abbrev fields : List Field
fields = Field.u32 7 ∷ Field.str (b'l' ∷ b'i' ∷ b'b' ∷ []) ∷ Field.stat file 300 (b'a' ∷ []) ∷ []

message_runs :
    take 24 (finish (puts (start buffer 40 5 513) fields)).1.buf
    ≡ 24 ∷ 0 ∷ 0 ∷ 0 ∷ 5 ∷ 1 ∷ 2 ∷ 7 ∷ 0 ∷ 0 ∷ 0 ∷ 3 ∷ 0 ∷ b'l' ∷ b'i' ∷ b'b' ∷ 1 ∷ 44 ∷ 1 ∷ 0 ∷ 0
      ∷ 1 ∷ 0 ∷ b'a' ∷ []
unfolding finish puts put start put8 put16 put32 putbytes putstr putstat type_code
message_runs = refl

file-ne-pipe : file ≢ VnodeType.pipe
file-ne-pipe e = cc

fields-Fits : All Fits fields
fields-Fits = (omega arith, (omega arith, ((file-ne-pipe, omega arith, omega arith), tt)))

message_round_trip_example :
    let (n, m) = finish (puts (start buffer 40 5 513) fields) in
    let sent = open_msg (take n m.buf) n in
    (n ≡ 7 + length (encodes fields))
    × (gets (map (want 64) (message 5 513 fields)) sent
        ≡ (map some (message 5 513 fields), record sent { pos = n }))
unfolding encodes encode
message_round_trip_example =
    message_round_trip buffer 40 5 513 64 fields refl (omega arith) (omega arith) (omega arith)
      fields-Fits (tt, (omega arith, (omega arith, tt))) (omega arith)
