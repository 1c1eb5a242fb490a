-- ===== src/Zrp/Msg.antt =====
-- zkt/net/zrp_msg.c: a cursor over a message buffer, and the values that it puts and gets.
-- A C string is the list of its bytes before the NUL, and a pointer into the buffer is an offset.
pub mod Put
pub mod Get
pub mod Read
pub mod RoundTrip
mod Tests
use manios.Base.{
  ℕ, zero, suc, ◌+◌, ◌-◌, ◌*◌, ◌/◌, ◌%◌, ◌^◌, Bool, true, false, not, ◌||◌, Option, none, some,
  List, [], ◌∷◌, ltb, leb, ◌==◌, if◌then◌else◌, length, get_or, take, drop,
}
use manios.Base.Bytes.{blit}

-- `struct zmsg`
pub record Zmsg : Type 0 where
  pub buf : List ℕ
  pub cap : ℕ
  pub pos : ℕ
  pub bad : Bool

-- `enum vnode_type`
pub data VnodeType : Type 0 where
  dir file device pipe : VnodeType

abbrev pub header : ℕ
header = 7

-- The bytes of a little-endian number, as the `v >> (8 * i)` loops store them.
pub le : ℕ → ℕ → List ℕ
le zero v = []
le (suc n) v = (v % 2 ^ 8) ∷ le n (v / 2 ^ 8)

-- `size_t` is 32 bits wide, and its arithmetic wraps.
abbrev pub sub_size : ℕ → ℕ → ℕ
sub_size a b = (a + 2 ^ 32 - b) % 2 ^ 32

abbrev pub add_size : ℕ → ℕ → ℕ
add_size a b = (a + b) % 2 ^ 32

pub room : Zmsg → ℕ → Option ℕ × Zmsg
room m n =
    if m.bad || ltb (sub_size m.cap m.pos) n
    then (none, record m { bad = true })
    else (some m.pos, record m { pos = add_size m.pos n })

-- `p = room(m, n); if (p) ...`: the bytes are stored where there is room.
pub put_at : Option ℕ × Zmsg → List ℕ → Zmsg
put_at (none, m) bs = m
put_at (some p, m) bs = record m { buf = blit m.buf p bs }

pub put8 : Zmsg → ℕ → Zmsg
unfolding room put_at le
put8 m v = put_at (room m 1) (le 1 v)

pub put16 : Zmsg → ℕ → Zmsg
unfolding room put_at le
put16 m v = put_at (room m 2) (le 2 v)

pub put32 : Zmsg → ℕ → Zmsg
unfolding room put_at le
put32 m v = put_at (room m 4) (le 4 v)

pub putbytes : Zmsg → List ℕ → Zmsg
unfolding room put_at
putbytes m bs = put_at (room m (length bs)) bs

pub putstr : Zmsg → List ℕ → Zmsg
putstr m s =
    let len = length s in
    if ltb 0xFFFF len then record m { bad = true } else putbytes (put16 m len) s

pub type_code : VnodeType → ℕ
type_code dir = 0
type_code device = 2
type_code _ = 1

pub putstat : Zmsg → VnodeType → ℕ → List ℕ → Zmsg
putstat m type len name = putstr (put32 (put8 m (type_code type)) len) name

pub start : List ℕ → ℕ → ℕ → ℕ → Zmsg
start buf cap type tag =
    put16 (put8 (record { buf = buf; cap = cap; pos = 4; bad = ltb cap header }) type) tag

-- The message length, and the cursor with the size field written.
pub finish : Zmsg → ℕ × Zmsg
unfolding le
finish m = if m.bad then (0, m) else (m.pos, record m { buf = blit m.buf 0 (le 4 m.pos) })

pub open_msg : List ℕ → ℕ → Zmsg
open_msg buf len = record { buf = buf; cap = len; pos = 0; bad = false }

-- The bytes do not overlap, so `|` is a sum.
pub word8 : List ℕ → Option ℕ → ℕ
word8 buf none = 0
word8 buf (some p) = get_or buf p 0

pub word16 : List ℕ → Option ℕ → ℕ
word16 buf none = 0
word16 buf (some p) = get_or buf p 0 + get_or buf (p + 1) 0 * 2 ^ 8

pub word32 : List ℕ → Option ℕ → ℕ
word32 buf none = 0
word32 buf (some p) =
    get_or buf p 0
    + get_or buf (p + 1) 0 * 2 ^ 8
    + get_or buf (p + 2) 0 * 2 ^ 16
    + get_or buf (p + 3) 0 * 2 ^ 24

pub get8 : Zmsg → ℕ × Zmsg
unfolding room word8
get8 m = let (p, m') = room m 1 in (word8 m.buf p, m')

pub get16 : Zmsg → ℕ × Zmsg
unfolding room word16
get16 m = let (p, m') = room m 2 in (word16 m.buf p, m')

pub get32 : Zmsg → ℕ × Zmsg
unfolding room word32
get32 m = let (p, m') = room m 4 in (word32 m.buf p, m')

-- The pointer that is returned.
pub getbytes : Zmsg → ℕ → Option ℕ × Zmsg
unfolding room
getbytes m len = room m len

-- What is at `out` afterwards, `none` where nothing is written there (`size` is 0).
pub copy_str : Zmsg → Option ℕ → ℕ → ℕ → Option (List ℕ) × Zmsg
copy_str m none len size = (if size == 0 then none else some [], record m { bad = true })
copy_str m (some p) len size =
    if leb size len
    then (if size == 0 then none else some [], record m { bad = true })
    else (some (take len (drop p m.buf)), m)

pub getstr : Zmsg → ℕ → Option (List ℕ) × Zmsg
unfolding copy_str
getstr m size = let (len, m₁) = get16 m in let (p, m₂) = getbytes m₁ len in copy_str m₂ p len size

-- The type of a code on the wire; a pipe's code is no type of a stat.
pub type_of : ℕ → Option VnodeType
type_of t =
    if t == 0 then some dir else if t == 1 then some file else if t == 2 then some device else none

pub record Stat : Type 0 where
  -- `none` where `*type` is not written
  pub type : Option VnodeType
  pub length : ℕ
  pub name : Option (List ℕ)
  pub ok : Bool

pub stat_of : Option VnodeType → ℕ → Option (List ℕ) → Zmsg → Stat × Zmsg
stat_of none len name m =
    (record { type = none; length = len; name = name; ok = false }, record m { bad = true })
stat_of (some t) len name m =
    (record { type = some t; length = len; name = name; ok = not m.bad }, m)

pub getstat : Zmsg → ℕ → Stat × Zmsg
unfolding stat_of type_of
getstat m size =
    let (t, m₁) = get8 m in
    let (len, m₂) = get32 m₁ in let (name, m₃) = getstr m₂ size in stat_of (type_of t) len name m₃
