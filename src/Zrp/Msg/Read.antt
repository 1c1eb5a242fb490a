-- ===== src/Zrp/Msg/Read.antt =====
-- Reading a message field by field: the calls that a parser makes, and what they give on a message
-- that the writers made.
use mathlib.Core.Option
use manios.Base.{
  ℕ, ◌<◌, ◌≡◌, refl, Option, none, some, List, [], ◌∷◌, ◌++◌, arith, length, map, drop, take,
  append_assoc, length-append, All,
}
use manios.Base.Bytes.{take-length}
use manios.Zrp.Msg.{Zmsg, Stat, get8, get16, get32, getbytes, getstr, getstat}
use manios.Zrp.Msg.Put.{Field, encode, encodes, Fits}
use manios.Zrp.Msg.Get.{
  IsAt, advance, advance-IsAt, room_lem, get8_lem, get16_lem, get32_lem, getstr_lem, getstat_lem,
}

-- What a reader asks for: the sizes are those of the caller's buffers.
pub data Want : Type 0 where
  u8 u16 u32 : Want
  bytes str stat : ℕ → Want

pub want : ℕ → Field → Want
want size (Field.u8 v) = u8
want size (Field.u16 v) = u16
want size (Field.u32 v) = u32
want size (Field.bytes bs) = bytes (length bs)
want size (Field.str s) = str size
want size (Field.stat t len name) = stat size

-- The bytes at a pointer that is returned, and a stat, as fields; `none` where there is no value.
field_bytes : Zmsg → ℕ → Option ℕ → Option Field
field_bytes m n none = none
field_bytes m n (some p) = some (Field.bytes (take n (drop p m.buf)))

field_stat : Stat → Option Field
field_stat s = elim s.type [
  | none ↦ none
  | some t ↦ elim s.name [ none ↦ none | some name ↦ some (Field.stat t s.length name) ]
]

pub get : Want → Zmsg → Option Field × Zmsg
unfolding field_bytes field_stat
get u8 m = let (v, m') = get8 m in (some (Field.u8 v), m')
get u16 m = let (v, m') = get16 m in (some (Field.u16 v), m')
get u32 m = let (v, m') = get32 m in (some (Field.u32 v), m')
get (bytes n) m = let (p, m') = getbytes m n in (field_bytes m' n p, m')
get (str size) m = let (s, m') = getstr m size in (Option.map Field.str s, m')
get (stat size) m = let (s, m') = getstat m size in (field_stat s, m')

pub gets : List Want → Zmsg → List (Option Field) × Zmsg
gets [] m = ([], m)
gets (w ∷ ws) m = let (f, m₁) = get w m in let (fs, m₂) = gets ws m₁ in (f ∷ fs, m₂)

-- The strings fit the buffers that the reader has for them.
abbrev pub FitsOut : ℕ → Field → Type 0
FitsOut size (Field.str s) = length s < size
FitsOut size (Field.stat t len name) = length name < size
FitsOut size _ = Unit

-- What was encoded is what is read, and the cursor moves behind it.
pub get_lem :
    {m : Zmsg} (size : ℕ) (f : Field) (rest : List ℕ)
    → IsAt m (encode f ++ rest)
    → Fits f
    → FitsOut size f
    → get (want size f) m ≡ (some f, advance m (length (encode f)))
unfolding get want encode
get_lem size (Field.u8 v) rest a fits out = ground (arith, get8_lem v rest a fits)
get_lem size (Field.u16 v) rest a fits out = ground (arith, get16_lem v rest a fits)
get_lem size (Field.u32 v) rest a fits out = ground (arith, get32_lem v rest a fits)
get_lem {m} size (Field.bytes bs) rest a fits out =
    unfold getbytes in
    ground (arith, room_lem (length bs) bs rest a refl, a.ahead, take-length bs rest)
get_lem size (Field.str s) rest a fits out = ground (arith, getstr_lem size s rest a fits out)
get_lem size (Field.stat t len name) rest a fits out =
    ground (arith, getstat_lem size t len name rest a fits.0 fits.1 fits.2 out)

pub gets_lem :
    {m : Zmsg} (size : ℕ) (fs : List Field) (rest : List ℕ)
    → IsAt m (encodes fs ++ rest)
    → All Fits fs
    → All (FitsOut size) fs
    → gets (map (want size) fs) m ≡ (map some fs, advance m (length (encodes fs)))
unfolding gets encodes
gets_lem size [] rest a fits out = ground arith
gets_lem {m} size (f ∷ fs) rest a fits out = ground (
  arith,
  get_lem {m = m} size f (encodes fs ++ rest) here fits.0 out.0,
  gets_lem {m = advance m (length (encode f))} size fs rest
      (advance-IsAt {m = m} (encode f) (encodes fs ++ rest) here) fits.1 out.1,
  length-append (encode f) (encodes fs),
)
  where
    here : IsAt m (encode f ++ (encodes fs ++ rest))
    here = rw append_assoc at a
