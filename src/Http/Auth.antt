-- ===== src/Http/Auth.antt =====
-- What a token proves.
use w16crypto_engine.Http.{skip_chars, authenticate, admin_only, take_chars}
use w16crypto_engine.Base.{String, ◌≡◌, true, none, some, ℕ, suc, ap, ◌∙◌, arith}
use text.Mathlib.TextPositions.{starts_with-append}
use Prim.Native.String.append
use Prim.Native.String.{◌++◌}

size : String → ℕ
size String.[] = 0
size (String.◌∷◌ c s) = suc (size s)

skip_chars-append : (p s : String) → skip_chars (size p) (p ++ s) ≡ s
unfolding skip_chars size
skip_chars-append String.[] s = λ i. append.nil s i
skip_chars-append (String.◌∷◌ c p) s =
    ap (skip_chars (suc (size p))) (λ i. append.cons c p s i) ∙ skip_chars-append p s

skip_prefix : (s : String) → skip_chars 6 ("admin_" ++ s) ≡ s
unfolding size
skip_prefix s = skip_chars-append "admin_" s

-- Whoever sends a token of the form `admin_` and any text is an administrator, under the name of
-- the text's first 36 characters, and passes the administrators' middleware: nothing about the
-- token is verified.
pub authenticate-admin :
    (s : String)
    → (authenticate (some ("admin_" ++ s))
        ≡ some (record { user_id = take_chars 36 s; is_admin = true }))
      × (admin_only (authenticate (some ("admin_" ++ s))) ≡ none)
unfolding authenticate admin_only
authenticate-admin s = ground (arith, starts_with-append "admin_" s, skip_prefix s)
