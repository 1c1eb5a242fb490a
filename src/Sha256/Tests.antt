-- ===== src/Sha256/Tests.antt =====
-- SHA-256 of "abc" in two pieces, and HMAC of a short text.
use manios.Base.{ℕ, ◌≡◌, ◌↔◌, refl, arith, true, List, [], ◌∷◌, replicate}
use manios.Sha256.{init, final, hmac_init, hmac_final, equal_secret}
use manios.Sha256.Blocks.{updates, concat}
use manios.Sha256.Fips.{fips_digest}
use manios.Sha256.Digest.{final-digest}
use manios.Sha256.Keyed.{hmac_updates, hmac, hmac_final-hmac}
use manios.Sha256.Secret.{equal_secret_iff}

abbrev stale : List ℕ
stale = replicate 64 7

abbrev pieces : List (List ℕ)
pieces = (97 ∷ 98 ∷ []) ∷ (99 ∷ []) ∷ []

final-digest_example : final (updates (init stale) pieces) ≡ fips_digest (concat pieces)
final-digest_example = final-digest stale pieces refl (omega arith, (omega arith, tt))

hmac_final-hmac_example :
    hmac_final stale (hmac_updates (hmac_init stale stale (74 ∷ 101 ∷ [])) pieces)
    ≡ hmac (74 ∷ 101 ∷ []) (concat pieces)
hmac_final-hmac_example =
    hmac_final-hmac stale stale stale (74 ∷ 101 ∷ []) pieces refl refl refl (omega arith)
      (omega arith, (omega arith, tt))

abbrev four : List ℕ
four = 1 ∷ 2 ∷ 3 ∷ 255 ∷ []

equal_secret_iff_example :
    (equal_secret four (1 ∷ 2 ∷ 3 ∷ 4 ∷ []) ≡ true) ↔ (four ≡ 1 ∷ 2 ∷ 3 ∷ 4 ∷ [])
equal_secret_iff_example = equal_secret_iff four (1 ∷ 2 ∷ 3 ∷ 4 ∷ []) refl
