-- ===== src/Webhooks/Headers.antt =====
-- No custom header forges one of the program's own.
use wp_open_aurora.Prelude.{
  ◌≡◌, refl, sym, ap, ◌∙◌, arith, String, Bool, true, false, not, none, some, [], ◌∷◌, ◌==◌,
  if◌then◌else◌, filter, Map, get, get-put, put, eq_iff,
}
use wp_open_aurora.Webhooks.{
  Outside, is_reserved, sanitize_custom_headers, build_headers, put_all, system_headers,
}

get-filter-none :
    (p : String → Bool) (key : String) (m : Map String)
    → p key ≡ false
    → get key (filter (λ h. p h.0) m) ≡ none
unfolding get
get-filter-none p key [] h = refl
get-filter-none p key ((k, v) ∷ m) h = ground (arith, eq_iff k key, get-filter-none p key m)

get-put_all_cong :
    (name : String) (kvs m m' : Map String)
    → get name m ≡ get name m'
    → get name (put_all kvs m) ≡ get name (put_all kvs m')
unfolding put_all
get-put_all_cong name [] m m' e = e
get-put_all_cong name ((k, v) ∷ kvs) m m' e =
    get-put_all_cong name kvs (put k v m) (put k v m')
      (get-put k name v m ∙ ap (λ r. if k == name then some v else r) e ∙ sym (get-put k name v m'))

-- Under a reserved name, in any spelling of its letters, a request carries what it carries with no
-- custom headers at all.
pub build_headers_unforged :
    (out : Outside) (custom : Map String) (event key id name : String)
    → is_reserved out name ≡ true
    → get name (build_headers out custom event key id)
      ≡ get name (build_headers out [] event key id)
unfolding build_headers sanitize_custom_headers get
build_headers_unforged out custom event key id name h =
    get-put_all_cong name (system_headers event key id) (sanitize_custom_headers out custom) []
      (get-filter-none (λ k. not (is_reserved out k)) name custom (ground arith))
