-- ===== src/Omega/Users/Passwords.antt =====
-- Passwords: what is stored verifies, and a default password must be changed.
use Prim.Native.String
use text.Mathlib.TextLemmas.{nil-append, cons-append}
use wp_open_aurora.Prelude.{
  ℕ, String, true, false, List, [], ◌∷◌, eq_iff, ◌≡◌, ◌≢◌, ◌↔◌, ◌⊎◌, refl, ap, ◌∙◌, arith,
}
use wp_open_aurora.Prelude.Results.{ok}
use wp_open_aurora.Prelude.Text.{split, part, contains, split_pair}
use wp_open_aurora.Omega.Users.{
  OmegaUser, same_bytes, hash_password, verify_password, assert_password_change_satisfied,
  without_api,
}

same_bytes_self : (xs : List ℕ) → same_bytes xs xs ≡ true
unfolding same_bytes
same_bytes_self [] = refl
same_bytes_self (x ∷ xs) = ground (arith, same_bytes_self xs)

colon-append : (s : String) → String.◌++◌ ":" s ≡ String.◌∷◌ ":" s
colon-append s = cons-append _ _ _ ∙ ap (String.◌∷◌ ":") (nil-append s)

module _ (scrypt : String → String → List ℕ) (to_hex : List ℕ → String)
    (from_hex : String → List ℕ) where
  -- What `hashPassword` stores verifies for the same password. Hexadecimal text decodes to the bytes
  -- that it codes, is not empty for a derived key, and holds no colon; nor does the salt.
  pub verify_password-hash_password :
      (salt password : String)
      → ((bytes : List ℕ) → from_hex (to_hex bytes) ≡ bytes)
      → contains b':' salt ≡ false
      → contains b':' (to_hex (scrypt password salt)) ≡ false
      → salt ≢ ""
      → to_hex (scrypt password salt) ≢ ""
      → verify_password scrypt to_hex from_hex password
          (hash_password scrypt to_hex from_hex salt password)
        ≡ true
  unfolding verify_password hash_password
  verify_password-hash_password salt password back s h ns nh =
      let hex = to_hex (scrypt password salt) in
      rw (colon-append hex, split_pair salt hex ":" s h)
        (ground (
          arith,
          eq_iff salt "",
          eq_iff hex "",
          back (scrypt password salt),
          same_bytes_self (scrypt password salt),
        ))

-- An account that must change its password is let through to its profile and to the logout only.
pub assert_password_change_satisfied_iff :
    (to_upper : String → String) (user : OmegaUser) (path method : String)
    → user.must_change_password ≡ true
    → (assert_password_change_satisfied to_upper user path method ≡ ok tt) ↔ (
        ((without_api (part (split b'?' path) 0) ≡ "/omega/auth/me")
          × ((to_upper method ≡ "PATCH") ⊎ (to_upper method ≡ "GET")))
        ⊎ ((without_api (part (split b'?' path) 0) ≡ "/omega/auth/logout")
            × (to_upper method ≡ "POST")))
unfolding assert_password_change_satisfied
assert_password_change_satisfied_iff to_upper user path method h =
    let p = without_api (part (split b'?' path) 0) in
    let m = to_upper method in
    (
      λ e. ground (
        arith,
        eq_iff p "/omega/auth/me",
        eq_iff p "/omega/auth/logout",
        eq_iff m "PATCH",
        eq_iff m "GET",
        eq_iff m "POST",
      ),
      λ e. ground (
        arith,
        eq_iff p "/omega/auth/me",
        eq_iff p "/omega/auth/logout",
        eq_iff m "PATCH",
        eq_iff m "GET",
        eq_iff m "POST",
      ),
    )
