-- ===== src/Elf/Format.antt =====
-- The formats that zkt/kernel/elf.c reads, its checks of them, and the ABI note.
use manios.Base.{
  ℕ, zero, suc, ◌+◌, ◌-◌, ◌*◌, ◌/◌, ◌%◌, ◌^◌, Bool, true, false, not, ◌&&◌, ◌||◌, List, [], ◌∷◌,
  ltb, leb, ◌==◌, if◌then◌else◌, get_or, take, length, Option, none, some,
}

abbrev pub page_size : ℕ
page_size = 4096

abbrev pub user_image_min : ℕ
user_image_min = 0x00001000

-- USER_STACK_TOP - (USER_STACK_PAGES + 1) * PAGE_SIZE
abbrev pub user_image_top : ℕ
user_image_top = 0xBFFFF000 - (16 + 1) * page_size

unfoldable pub le16 : List ℕ → ℕ → ℕ
le16 bs i = get_or bs i 0 + get_or bs (i + 1) 0 * 2 ^ 8

unfoldable pub le32 : List ℕ → ℕ → ℕ
unfolding le16
le32 bs i = le16 bs i + le16 bs (i + 2) * 2 ^ 16

-- The fields of `struct elf_header` that are read.
pub record ElfHeader : Type 0 where
  pub ident : List ℕ
  pub type : ℕ
  pub machine : ℕ
  pub entry : ℕ
  pub phoff : ℕ
  pub phentsize : ℕ
  pub phnum : ℕ

abbrev pub header_size : ℕ
header_size = 52

unfoldable pub read_header : List ℕ → ElfHeader
read_header image = record {
  ident = take 16 image;
  type = le16 image 16;
  machine = le16 image 18;
  entry = le32 image 24;
  phoff = le32 image 28;
  phentsize = le16 image 42;
  phnum = le16 image 44;
}

-- The fields of `struct elf_phdr` that are read.
pub record ElfPhdr : Type 0 where
  pub type : ℕ
  pub offset : ℕ
  pub vaddr : ℕ
  pub filesz : ℕ
  pub memsz : ℕ
  pub flags : ℕ

abbrev pub phdr_size : ℕ
phdr_size = 32

unfoldable pub read_phdr : List ℕ → ℕ → ElfPhdr
read_phdr image at = record {
  type = le32 image at;
  offset = le32 image (at + 4);
  vaddr = le32 image (at + 8);
  filesz = le32 image (at + 16);
  memsz = le32 image (at + 20);
  flags = le32 image (at + 24);
}

-- The `n` entries from `at` on.
unfoldable pub read_phdrs : List ℕ → ℕ → ℕ → List ElfPhdr
read_phdrs image zero at = []
read_phdrs image (suc n) at = read_phdr image at ∷ read_phdrs image n (at + phdr_size)

-- memcmp of the bytes from `i` on
unfoldable pub matches : List ℕ → ℕ → List ℕ → Bool
matches bs i [] = true
matches bs i (x ∷ xs) = get_or bs i 0 == x && matches bs (i + 1) xs

unfoldable pub valid_header : ElfHeader → ℕ → Bool
unfolding matches
valid_header h size =
    leb header_size size
    && matches h.ident 0 (0x7f ∷ b'E' ∷ b'L' ∷ b'F' ∷ [])
    && get_or h.ident 4 0 == 1
    && get_or h.ident 5 0 == 1
    && get_or h.ident 6 0 == 1
    && h.type == 2
    && h.machine == 3
    && h.phentsize == phdr_size
    && ltb 0 h.phnum
    && ltb h.phoff size
    && leb h.phnum ((size + 2 ^ 32 - h.phoff) % 2 ^ 32 / phdr_size)

unfoldable pub valid_segment : ElfPhdr → ℕ → Bool
valid_segment p size =
    leb p.filesz p.memsz
    && leb p.offset size
    && leb p.filesz ((size + 2 ^ 32 - p.offset) % 2 ^ 32)
    && leb user_image_min p.vaddr
    && ltb p.vaddr user_image_top
    && leb p.memsz ((user_image_top + 2 ^ 32 - p.vaddr) % 2 ^ 32)

-- The padded length of a note's name or descriptor: `(n + 3) & ~3u`
abbrev pub padded : ℕ → ℕ
padded n = (n + 3) % 2 ^ 32 / 4 * 4

-- One note at `note` with `left` bytes: the version, or where the next one starts.
pub data Note : Type 0 where
  version_note : ℕ → Note
  next_note : ℕ → ℕ → Note
  bad_note : Note

unfoldable pub read_note : List ℕ → ℕ → ℕ → Note
unfolding matches
read_note image note size =
    let namesz = le32 image note in
    let descsz = le32 image (note + 4) in
    let kind = le32 image (note + 8) in
    let left = size - 12 in
    let name_len = padded namesz in
    let desc_len = padded descsz in
    if ltb left namesz || ltb left descsz
    then bad_note
    else if ltb left name_len || ltb (left - name_len) desc_len
    then bad_note
    else if kind == 1
        && namesz == 4
        && matches image (note + 12) (b'Z' ∷ b'K' ∷ b'T' ∷ 0 ∷ [])
        && descsz == 4
    then version_note (le32 image (note + 12 + name_len))
    else next_note (note + 12 + name_len + desc_len) (left - name_len - desc_len)

-- `while (left >= 12)`, on fuel: a note takes 12 bytes at least.
unfoldable pub scan_notes : ℕ → List ℕ → ℕ → ℕ → Option ℕ
scan_notes zero image note left = none
scan_notes (suc fuel) image note left =
    if ltb left 12 then none else elim (read_note image note left) [
      | version_note v ↦ some v
      | next_note n l ↦ scan_notes fuel image n l
      | bad_note ↦ none
    ]

unfoldable pub segment_notes : List ℕ → ElfPhdr → Option ℕ
unfolding scan_notes
segment_notes image p =
    if not (p.type == 4)
      || ltb (length image) p.offset
      || ltb ((length image + 2 ^ 32 - p.offset) % 2 ^ 32) p.filesz
    then none
    else scan_notes (p.filesz / 12 + 1) image p.offset p.filesz

-- The version of the first note that has one; 0 if there is none.
unfoldable pub abi_version : List ℕ → List ElfPhdr → ℕ
abi_version image [] = 0
abi_version image (p ∷ ps) = elim (segment_notes image p) [
  | none ↦ abi_version image ps
  | some v ↦ v
]

unfoldable pub is_load : ElfPhdr → Bool
is_load p = p.type == 1 && not (p.memsz == 0)

-- `flags & PF_W`
unfoldable pub is_writable : ElfPhdr → Bool
is_writable p = p.flags / 2 % 2 == 1

unfoldable pub writable_segment_covers : List ElfPhdr → ℕ → Bool
unfolding is_load is_writable
writable_segment_covers [] page = false
writable_segment_covers (p ∷ ps) page =
    is_load p
      && is_writable p
      && ltb page ((p.vaddr + p.memsz) % 2 ^ 32)
      && ltb p.vaddr ((page + page_size) % 2 ^ 32)
    || writable_segment_covers ps page
