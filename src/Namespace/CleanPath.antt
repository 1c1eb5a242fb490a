-- ===== src/Namespace/CleanPath.antt =====
-- vfs_clean_path of zkt/fs/namespace.c. A string is the list of its bytes before the NUL, and the
-- buffer `out` the list of its first `len` bytes.
pub mod Names
pub mod Loop
pub mod Canonical
mod Tests
use manios.Base.{
  ℕ, zero, suc, ◌+◌, ◌-◌, Bool, true, false, not, ◌&&◌, ◌||◌, List, [], ◌∷◌, ◌++◌, ltb, ◌==◌,
  if◌then◌else◌, get_or, take, length, Option, none, some,
}

-- VFS_NAME_MAX and VFS_PATH_MAX
abbrev pub name_max : ℕ
name_max = 63

abbrev pub path_max : ℕ
path_max = 255

-- The result, with the -EINVAL of a path that is not absolute and the -ENAMETOOLONG.
pub data Cleaned : Type 0 where
  cleaned : List ℕ → Cleaned
  not_absolute name_too_long : Cleaned

abbrev pub is_slash : ℕ → Bool
is_slash c = c == b'/'

-- `while (*p == '/') p++`
pub skip_slashes : List ℕ → List ℕ
skip_slashes [] = []
skip_slashes (c ∷ p) = if is_slash c then skip_slashes p else c ∷ p

-- The bytes that `while (*p && *p != '/') p++` passes, and those after them.
unfoldable pub name_of : List ℕ → List ℕ
name_of [] = []
name_of (c ∷ p) = if is_slash c then [] else c ∷ name_of p

unfoldable pub after_name : List ℕ → List ℕ
after_name [] = []
after_name (c ∷ p) = if is_slash c then c ∷ p else after_name p

pub is_dot : List ℕ → Bool
is_dot name = length name == 1 && get_or name 0 0 == b'.'

pub is_dotdot : List ℕ → Bool
is_dotdot name = length name == 2 && get_or name 0 0 == b'.' && get_or name 1 0 == b'.'

-- `while (len > 1 && out[len - 1] != '/') len--`
pub trim_name : List ℕ → ℕ → ℕ
trim_name out zero = zero
trim_name out (suc n) =
    let rest = trim_name out n in
    if ltb 1 (suc n) && not (is_slash (get_or out n 0)) then rest else suc n

-- What a ".." does.
pub drop_last : List ℕ → List ℕ
unfolding trim_name
drop_last out =
    let len = trim_name out (length out) in take (if ltb 1 len then len - 1 else len) out

abbrev pub add_name : List ℕ → List ℕ → List ℕ
add_name out name = (if ltb 1 (length out) then out ++ (b'/' ∷ []) else out) ++ name

-- What a name does to the buffer; none for the -ENAMETOOLONG.
pub enter : List ℕ → List ℕ → Option (List ℕ)
unfolding is_dot is_dotdot drop_last
enter out name =
    if length name == 0 || is_dot name
    then some out
    else if is_dotdot name
    then some (drop_last out)
    else if ltb name_max (length name) || ltb path_max (length out + 1 + length name)
    then none
    else some (add_name out name)

-- The outer loop, on fuel.
pub clean_loop : ℕ → List ℕ → List ℕ → Cleaned
unfolding skip_slashes name_of after_name enter
clean_loop zero p out = cleaned out
clean_loop (suc fuel) [] out = cleaned out
clean_loop (suc fuel) (c ∷ cs) out =
    let p = skip_slashes (c ∷ cs) in
    elim (enter out (name_of p)) [
      | none ↦ name_too_long
      | some out' ↦ clean_loop fuel (after_name p) out'
    ]

-- A round takes a byte at least.
pub clean_path : List ℕ → Cleaned
unfolding clean_loop
clean_path path =
    if not (is_slash (get_or path 0 0))
    then not_absolute
    else clean_loop (length path) path (b'/' ∷ [])
