-- ===== src/Zrp/Msg/Get.antt =====
-- What the readers of zrp_msg.c find in the buffer, and where they leave the cursor.
use manios.Base.{
  ℕ, ◌+◌, ◌/◌, ◌%◌, ◌^◌, ◌≤◌, ◌<◌, ◌≡◌, refl, true, false, some, List, [], ◌∷◌, ◌++◌, arith, length,
  get_or, drop, ◌≢◌, length-append,
}
use manios.Base.Bytes.{drop-past, get_or-drop, take-length}
use manios.Zrp.Msg.{
  Zmsg, VnodeType, pipe, le, room, get8, get16, get32, getbytes, getstr, getstat, type_code,
  type_of,
}

-- The cursor of a message of which `rest` is still to be read.
pub record IsAt (m : Zmsg) (rest : List ℕ) : Type 0 where
  pub good : m.bad ≡ false
  pub small : m.cap < 2 ^ 32
  pub left : m.cap ≡ m.pos + length rest
  pub ahead : drop m.pos m.buf ≡ rest

abbrev pub advance : Zmsg → ℕ → Zmsg
advance m n = record m { pos = m.pos + n }

pub advance-IsAt :
    {m : Zmsg} (xs rest : List ℕ) → IsAt m (xs ++ rest) → IsAt (advance m (length xs)) rest
advance-IsAt {m} xs rest a = record {
  good = a.good;
  small = a.small;
  left = omega (arith, length-append xs rest, a.left);
  ahead = drop-past m.buf m.pos xs rest a.ahead;
}

pub room_lem :
    {m : Zmsg} (n : ℕ) (xs rest : List ℕ)
    → IsAt m (xs ++ rest)
    → length xs ≡ n
    → room m n ≡ (some m.pos, advance m n)
unfolding room
room_lem n xs rest a e = ground (arith, length-append xs rest)

-- The byte `k` places behind the cursor.
byte_at :
    {m : Zmsg} (k : ℕ) (xs rest : List ℕ) (y : ℕ)
    → IsAt m (xs ++ y ∷ rest)
    → length xs ≡ k
    → get_or m.buf (m.pos + k) 0 ≡ y
byte_at {m} k xs rest y a e =
    get_or-drop m.buf (m.pos + k) 0 y rest (rw (← e) (drop-past m.buf m.pos xs (y ∷ rest) a.ahead))

pub get8_lem :
    {m : Zmsg} (v : ℕ) (rest : List ℕ)
    → IsAt m (le 1 v ++ rest)
    → v < 2 ^ 8
    → get8 m ≡ (v, advance m 1)
unfolding get8 le
get8_lem {m} v rest a fits =
    ground (arith, room_lem 1 (le 1 v) rest a refl, byte_at 0 [] rest (v % 2 ^ 8) a refl)

pub get16_lem :
    {m : Zmsg} (v : ℕ) (rest : List ℕ)
    → IsAt m (le 2 v ++ rest)
    → v < 2 ^ 16
    → get16 m ≡ (v, advance m 2)
unfolding get16 le
get16_lem {m} v rest a fits = ground (
  arith,
  room_lem 2 (le 2 v) rest a refl,
  byte_at 0 [] (v / 2 ^ 8 % 2 ^ 8 ∷ rest) (v % 2 ^ 8) a refl,
  byte_at 1 (v % 2 ^ 8 ∷ []) rest (v / 2 ^ 8 % 2 ^ 8) a refl,
)

pub get32_lem :
    {m : Zmsg} (v : ℕ) (rest : List ℕ)
    → IsAt m (le 4 v ++ rest)
    → v < 2 ^ 32
    → get32 m ≡ (v, advance m 4)
unfolding get32 le
get32_lem {m} v rest a fits = ground (
  arith,
  room_lem 4 (le 4 v) rest a refl,
  byte_at 0 [] (b₁ ∷ b₂ ∷ b₃ ∷ rest) b₀ a refl,
  byte_at 1 (b₀ ∷ []) (b₂ ∷ b₃ ∷ rest) b₁ a refl,
  byte_at 2 (b₀ ∷ b₁ ∷ []) (b₃ ∷ rest) b₂ a refl,
  byte_at 3 (b₀ ∷ b₁ ∷ b₂ ∷ []) rest b₃ a refl,
)
  where
    b₀ : ℕ
    b₀ = v % 2 ^ 8

    b₁ : ℕ
    b₁ = v / 2 ^ 8 % 2 ^ 8

    b₂ : ℕ
    b₂ = v / 2 ^ 8 / 2 ^ 8 % 2 ^ 8

    b₃ : ℕ
    b₃ = v / 2 ^ 8 / 2 ^ 8 / 2 ^ 8 % 2 ^ 8

pub getstr_lem :
    {m : Zmsg} (size : ℕ) (s rest : List ℕ)
    → IsAt m (le 2 (length s) ++ (s ++ rest))
    → length s ≤ 0xFFFF
    → length s < size
    → getstr m size ≡ (some s, advance m (2 + length s))
unfolding getstr getbytes
getstr_lem {m} size s rest a short fits = ground (
  arith,
  get16_lem {m = m} (length s) (s ++ rest) a,
  room_lem {m = advance m 2} (length s) s rest behind refl,
  behind.ahead,
  take-length s rest,
)
  where
    behind : IsAt (advance m 2) (s ++ rest)
    behind = unfold le in advance-IsAt (le 2 (length s)) (s ++ rest) a

pub type-type_code : (t : VnodeType) → t ≢ pipe → type_of (type_code t) ≡ some t
unfolding type_of type_code
type-type_code t h = ground arith

type_code-lt : (t : VnodeType) → type_code t < 2 ^ 8
unfolding type_code
type_code-lt t = ground arith

pub getstat_lem :
    {m : Zmsg} (size : ℕ) (t : VnodeType) (len : ℕ) (name rest : List ℕ)
    → IsAt m (le 1 (type_code t) ++ (le 4 len ++ (le 2 (length name) ++ (name ++ rest))))
    → t ≢ pipe
    → len < 2 ^ 32
    → length name ≤ 0xFFFF
    → length name < size
    → getstat m size ≡ (
      record { type = some t; length = len; name = some name; ok = true },
      advance m (7 + length name),
    )
unfolding getstat
getstat_lem {m} size t len name rest a h fits short room_for = ground (
  arith,
  a.good,
  type-type_code t h,
  get8_lem {m = m} (type_code t) (le 4 len ++ (le 2 (length name) ++ (name ++ rest))) a
      (type_code-lt t),
  get32_lem {m = advance m 1} len (le 2 (length name) ++ (name ++ rest)) a₁ fits,
  getstr_lem {m = advance (advance m 1) 4} size name rest a₂ short room_for,
)
  where
    a₁ : IsAt (advance m 1) (le 4 len ++ (le 2 (length name) ++ (name ++ rest)))
    a₁ = unfold le in advance-IsAt {m = m} (le 1 (type_code t)) _ a

    a₂ : IsAt (advance (advance m 1) 4) (le 2 (length name) ++ (name ++ rest))
    a₂ = unfold le in advance-IsAt {m = advance m 1} (le 4 len) _ a₁
