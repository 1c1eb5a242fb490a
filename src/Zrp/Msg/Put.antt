-- ===== src/Zrp/Msg/Put.antt =====
-- What the writers of zrp_msg.c leave in the buffer.
use manios.Base.{
  ℕ, ◌+◌, ◌^◌, ◌≤◌, ◌<◌, ◌≡◌, refl, sym, ◌∙◌, true, false, List, [], ◌∷◌, ◌++◌, arith, length,
  length-append, ◌≢◌, All, dec_lt,
}
use manios.Base.Bytes.{blit, blit-blit, blit-nil, length-blit}
use manios.Zrp.Msg.{
  Zmsg, VnodeType, le, put8, put16, put32, putbytes, putstr, putstat, type_code, pipe,
}

-- One thing that a message holds.
pub data Field : Type 0 where
  u8 u16 u32 : ℕ → Field
  bytes str : List ℕ → Field
  stat : VnodeType → ℕ → List ℕ → Field

-- The wire format of a field: little-endian numbers, and strings behind their 16-bit length.
unfoldable pub encode : Field → List ℕ
unfolding le
encode (u8 v) = le 1 v
encode (u16 v) = le 2 v
encode (u32 v) = le 4 v
encode (bytes bs) = bs
encode (str s) = le 2 (length s) ++ s
encode (stat t len name) = le 1 (type_code t) ++ (le 4 len ++ (le 2 (length name) ++ name))

unfoldable pub put : Zmsg → Field → Zmsg
put m (u8 v) = put8 m v
put m (u16 v) = put16 m v
put m (u32 v) = put32 m v
put m (bytes bs) = putbytes m bs
put m (str s) = putstr m s
put m (stat t len name) = putstat m t len name

unfoldable pub puts : Zmsg → List Field → Zmsg
puts m [] = m
puts m (f ∷ fs) = puts (put m f) fs

unfoldable pub encodes : List Field → List ℕ
encodes [] = []
encodes (f ∷ fs) = encode f ++ encodes fs

-- A cursor that is in its buffer.
pub record IsReady (m : Zmsg) : Type 0 where
  pub good : m.bad ≡ false
  pub inside : m.pos ≤ m.cap
  pub whole : length m.buf ≡ m.cap
  pub small : m.cap < 2 ^ 32

-- The cursor behind `bs`, once they are written.
abbrev pub wrote : Zmsg → List ℕ → Zmsg
wrote m bs = record m { buf = blit m.buf m.pos bs; pos = m.pos + length bs }

pub wrote-IsReady :
    {m : Zmsg} (bs : List ℕ) → IsReady m → m.pos + length bs ≤ m.cap → IsReady (wrote m bs)
wrote-IsReady {m} bs r h = ground (arith, length-blit m.buf m.pos bs)

pub wrote-wrote : (m : Zmsg) (ys zs : List ℕ) → wrote (wrote m ys) zs ≡ wrote m (ys ++ zs)
wrote-wrote m ys zs =
    ground (arith, blit-blit m.buf m.pos (m.pos + length ys) ys zs refl, length-append ys zs)

pub putbytes_lem :
    {m : Zmsg} (bs : List ℕ) → IsReady m → m.pos + length bs ≤ m.cap → putbytes m bs ≡ wrote m bs
unfolding putbytes
putbytes_lem bs r h = ground arith

pub put16_lem : {m : Zmsg} (v : ℕ) → IsReady m → m.pos + 2 ≤ m.cap → put16 m v ≡ wrote m (le 2 v)
unfolding put16
put16_lem v r h = ground arith

pub put8_lem : {m : Zmsg} (v : ℕ) → IsReady m → m.pos + 1 ≤ m.cap → put8 m v ≡ wrote m (le 1 v)
unfolding put8
put8_lem v r h = ground arith

pub put32_lem : {m : Zmsg} (v : ℕ) → IsReady m → m.pos + 4 ≤ m.cap → put32 m v ≡ wrote m (le 4 v)
unfolding put32
put32_lem v r h = ground arith

pub putstr_lem :
    {m : Zmsg} (s : List ℕ)
    → IsReady m
    → length s ≤ 0xFFFF
    → m.pos + (2 + length s) ≤ m.cap
    → putstr m s ≡ wrote m (le 2 (length s) ++ s)
unfolding putstr le
putstr_lem {m} s r short h = ground (
  arith,
  put16_lem {m = m} (length s) r (omega arith),
  putbytes_lem s (wrote-IsReady (le 2 (length s)) r (omega arith)) (omega arith),
  wrote-wrote m (le 2 (length s)) s,
)

pub putstat_lem :
    {m : Zmsg} (t : VnodeType) (len : ℕ) (name : List ℕ)
    → IsReady m
    → length name ≤ 0xFFFF
    → m.pos + (7 + length name) ≤ m.cap
    → putstat m t len name
      ≡ wrote m (le 1 (type_code t) ++ (le 4 len ++ (le 2 (length name) ++ name)))
unfolding putstat le
putstat_lem {m} t len name r short h =
    rw (put8_lem (type_code t) r (omega arith), put32_lem len r₁ (omega arith))
      (putstr_lem name r₂ short (omega arith) ∙ (wrote-wrote _ _ _ ∙ wrote-wrote _ _ _))
  where
    r₁ : IsReady (wrote m (le 1 (type_code t)))
    r₁ = wrote-IsReady (le 1 (type_code t)) r (omega arith)

    r₂ : IsReady (wrote (wrote m (le 1 (type_code t))) (le 4 len))
    r₂ = wrote-IsReady (le 4 len) r₁ (omega arith)

-- What the caller of a writer sees to.
abbrev pub Fits : Field → Type 0
Fits (u8 v) = v < 2 ^ 8
Fits (u16 v) = v < 2 ^ 16
Fits (u32 v) = v < 2 ^ 32
Fits (bytes bs) = Unit
Fits (str s) = length s ≤ 0xFFFF
Fits (stat t len name) = (t ≢ pipe) × (len < 2 ^ 32) × (length name ≤ 0xFFFF)

pub put_lem :
    {m : Zmsg} (f : Field)
    → IsReady m
    → Fits f
    → m.pos + length (encode f) ≤ m.cap
    → put m f ≡ wrote m (encode f)
unfolding put encode
put_lem (u8 v) r fits h = put8_lem v r (omega arith)
put_lem (u16 v) r fits h = put16_lem v r (omega arith)
put_lem (u32 v) r fits h = put32_lem v r (omega arith)
put_lem (bytes bs) r fits h = putbytes_lem bs r h
put_lem (str s) r fits h = putstr_lem s r fits (omega arith)
put_lem {m} (stat t len name) r fits h = putstat_lem t len name r fits.2 (omega arith)

pub wrote-nil : (m : Zmsg) → wrote m [] ≡ m
wrote-nil m = ground (arith, blit-nil m.buf m.pos)

pub puts_lem :
    {m : Zmsg} (fs : List Field)
    → IsReady m
    → All Fits fs
    → m.pos + length (encodes fs) ≤ m.cap
    → puts m fs ≡ wrote m (encodes fs)
unfolding puts encodes
puts_lem {m} [] r fits h = sym (wrote-nil m)
puts_lem {m} (f ∷ fs) r fits h = rw (put_lem f r fits.0 head_fits) (
    puts_lem {m = wrote m (encode f)} fs (wrote-IsReady (encode f) r head_fits) fits.1 tail_fits
    ∙ wrote-wrote m (encode f) (encodes fs))
  where
    head_fits : m.pos + length (encode f) ≤ m.cap
    head_fits = omega (arith, length-append (encode f) (encodes fs))

    tail_fits : m.pos + length (encode f) + length (encodes fs) ≤ m.cap
    tail_fits = omega (arith, length-append (encode f) (encodes fs))

pub putbytes_bad : (m : Zmsg) (bs : List ℕ) → m.bad ≡ true → (putbytes m bs).bad ≡ true
unfolding putbytes
putbytes_bad m bs b = ground arith

pub put8_bad : (m : Zmsg) (v : ℕ) → m.bad ≡ true → (put8 m v).bad ≡ true
unfolding put8
put8_bad m v b = ground arith

pub put16_bad : (m : Zmsg) (v : ℕ) → m.bad ≡ true → (put16 m v).bad ≡ true
unfolding put16
put16_bad m v b = ground arith

pub put32_bad : (m : Zmsg) (v : ℕ) → m.bad ≡ true → (put32 m v).bad ≡ true
unfolding put32
put32_bad m v b = ground arith

pub putstr_bad : (m : Zmsg) (s : List ℕ) → m.bad ≡ true → (putstr m s).bad ≡ true
unfolding putstr
putstr_bad m s b = ground (arith, putbytes_bad (put16 m (length s)) s, put16_bad m (length s))

-- Nothing makes a bad cursor good again.
pub put_bad : (m : Zmsg) (f : Field) → m.bad ≡ true → (put m f).bad ≡ true
unfolding put putstat
put_bad m (u8 v) b = put8_bad m v b
put_bad m (u16 v) b = put16_bad m v b
put_bad m (u32 v) b = put32_bad m v b
put_bad m (bytes bs) b = putbytes_bad m bs b
put_bad m (str s) b = putstr_bad m s b
put_bad m (stat t len name) b = putstr_bad _ name (put32_bad _ len (put8_bad m (type_code t) b))

pub puts_bad : (m : Zmsg) (fs : List Field) → m.bad ≡ true → (puts m fs).bad ≡ true
unfolding puts
puts_bad m [] b = b
puts_bad m (f ∷ fs) b = puts_bad (put m f) fs (put_bad m f b)

putbytes_full :
    {m : Zmsg} (bs : List ℕ) → IsReady m → m.cap < m.pos + length bs → (putbytes m bs).bad ≡ true
unfolding putbytes
putbytes_full bs r h = ground arith

put8_full : {m : Zmsg} (v : ℕ) → IsReady m → m.cap < m.pos + 1 → (put8 m v).bad ≡ true
unfolding put8
put8_full v r h = ground arith

put16_full : {m : Zmsg} (v : ℕ) → IsReady m → m.cap < m.pos + 2 → (put16 m v).bad ≡ true
unfolding put16
put16_full v r h = ground arith

put32_full : {m : Zmsg} (v : ℕ) → IsReady m → m.cap < m.pos + 4 → (put32 m v).bad ≡ true
unfolding put32
put32_full v r h = ground arith

putstr_full :
    {m : Zmsg} (s : List ℕ) → IsReady m → m.cap < m.pos + (2 + length s) → (putstr m s).bad ≡ true
unfolding putstr le
putstr_full {m} s r h = elim (dec_lt m.cap (m.pos + 2)) [
  | yes p ↦ ground (arith, putbytes_bad (put16 m (length s)) s, put16_full {m = m} (length s) r p)
  | no p ↦ ground (
    arith,
    put16_lem {m = m} (length s) r (omega arith),
    putbytes_full s (wrote-IsReady (le 2 (length s)) r (omega arith)) (omega arith),
  )
]

putstat_full :
    {m : Zmsg} (t : VnodeType) (len : ℕ) (name : List ℕ)
    → IsReady m
    → m.cap < m.pos + (7 + length name)
    → (putstat m t len name).bad ≡ true
unfolding putstat le
putstat_full {m} t len name r h = elim (dec_lt m.cap (m.pos + 1)) [
  | yes p ↦ putstr_bad _ name (put32_bad _ len (put8_full (type_code t) r p))
  | no p ↦ rw (put8_lem (type_code t) r (omega arith)) (elim (dec_lt m.cap (m.pos + 1 + 4)) [
    | yes q ↦ putstr_bad _ name (put32_full len (r₁ p) (omega arith))
    | no q ↦
        rw (put32_lem len (r₁ p) (omega arith))
          (putstr_full name (wrote-IsReady (le 4 len) (r₁ p) (omega arith)) (omega arith))
  ])
]
  where
    r₁ : ¬ (m.cap < m.pos + 1) → IsReady (wrote m (le 1 (type_code t)))
    r₁ p = wrote-IsReady (le 1 (type_code t)) r (omega arith)

-- A field that does not fit makes the cursor bad.
pub put_full :
    {m : Zmsg} (f : Field) → IsReady m → m.cap < m.pos + length (encode f) → (put m f).bad ≡ true
unfolding put encode
put_full (u8 v) r h = put8_full v r h
put_full (u16 v) r h = put16_full v r h
put_full (u32 v) r h = put32_full v r h
put_full (bytes bs) r h = putbytes_full bs r h
put_full (str s) r h = putstr_full s r (omega arith)
put_full (stat t len name) r h = putstat_full t len name r (omega arith)

-- Fields that do not fit together make the cursor bad.
pub puts_full :
    {m : Zmsg} (fs : List Field)
    → IsReady m
    → All Fits fs
    → m.cap < m.pos + length (encodes fs)
    → (puts m fs).bad ≡ true
unfolding puts encodes
puts_full [] r fits h = absurd (omega arith)
puts_full {m} (f ∷ fs) r fits h = elim (dec_lt m.cap (m.pos + length (encode f))) [
  | yes p ↦ puts_bad (put m f) fs (put_full f r p)
  | no p ↦
      rw (put_lem f r fits.0 (omega arith), puts)
        (puts_full {m = wrote m (encode f)} fs (wrote-IsReady (encode f) r (omega arith)) fits.1
          (omega (arith, length-append (encode f) (encodes fs))))
]
