-- ===== src/Namespace/CleanPath/Tests.antt =====
-- Paths that are cleaned.
use manios.Base.{ℕ, ◌≡◌, refl, List, [], ◌∷◌}
use manios.Namespace.CleanPath.{cleaned, clean_path}
use manios.Namespace.CleanPath.Loop.{meaning, clean_path-meaning}
use manios.Namespace.CleanPath.Canonical.{
  IsCleanPath, clean_path-IsCleanPath, clean_path_idempotent,
}

-- "/a//./b/../cd/"
abbrev untidy : List ℕ
untidy =
    b'/' ∷ b'a' ∷ b'/' ∷ b'/' ∷ b'.' ∷ b'/' ∷ b'b' ∷ b'/' ∷ b'.' ∷ b'.' ∷ b'/' ∷ b'c' ∷ b'd' ∷ b'/'
    ∷ []

-- "/a/cd"
abbrev tidy : List ℕ
tidy = b'/' ∷ b'a' ∷ b'/' ∷ b'c' ∷ b'd' ∷ []

untidy-tidy : clean_path untidy ≡ cleaned tidy
unfolding clean_path
untidy-tidy = refl

clean_path-IsCleanPath_example : IsCleanPath tidy
clean_path-IsCleanPath_example = clean_path-IsCleanPath untidy tidy untidy-tidy

clean_path_idempotent_example : clean_path tidy ≡ cleaned tidy
clean_path_idempotent_example = clean_path_idempotent untidy tidy untidy-tidy

clean_path-meaning_example : clean_path untidy ≡ meaning untidy
clean_path-meaning_example = clean_path-meaning untidy
