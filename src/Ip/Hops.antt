-- ===== src/Ip/Hops.antt =====
-- Which address `resolveClientIp` answers, whatever the client writes into X-Forwarded-For.
use mathlib.Core.List.{reverse, reverse-append, reverse-cons, append_assoc}
use wp_open_aurora.Prelude.{
  ℕ, String, Bool, true, false, not, Option, some, List, [], ◌∷◌, ◌++◌, find, ◌≡◌, refl, All,
  All-append, ap, ◌∙◌,
}
use wp_open_aurora.Ip.{
  RequestLike, Header, is_missing, hops_of, is_trusted, closest_hop, socket_address,
  resolve_client_ip,
}

module _ {A : Type 0} (p : A → Bool) where
  find-append_miss : (xs ys : List A) → All (λ x. p x ≡ false) xs → find p (xs ++ ys) ≡ find p ys
  find-append_miss [] ys h = refl
  find-append_miss (x ∷ xs) ys (e, h) = rw e (find-append_miss xs ys h)

  All-reverse : (xs : List A) → All (λ x. p x ≡ false) xs → All (λ x. p x ≡ false) (reverse xs)
  All-reverse [] h = tt
  All-reverse (x ∷ xs) (e, h) =
      rw (reverse-cons x xs)
        (All-append (λ x. p x ≡ false) (reverse xs) _ (All-reverse xs h) (e, tt))

  -- The last element that passes, with none behind it, is what a search from the right finds.
  find-reverse :
      (xs : List A) (x : A) (ys : List A)
      → p x ≡ true
      → All (λ y. p y ≡ false) ys
      → find p (reverse (xs ++ x ∷ ys)) ≡ some x
  find-reverse xs x ys e h =
      rw (reverse-append xs (x ∷ ys), reverse-cons x ys, append_assoc)
        (find-append_miss (reverse ys) _ (All-reverse ys h) ∙ rw e)

module _ {A : Type 0} {P Q : A → Type 0} (f : (a : A) → P a → Q a) where
  All-map : (xs : List A) → All P xs → All Q xs
  All-map [] h = tt
  All-map (x ∷ xs) (p, h) = (f x p, All-map xs h)

-- The header has no say unless the peer of the socket is a trusted proxy.
pub resolve_client_ip_untrusted :
    (number : String → Option ℕ) (req : RequestLike) (header : Option Header)
    (proxies : List String)
    → is_trusted number proxies (socket_address req) ≡ false
    → resolve_client_ip number (record req { forwarded = header }) proxies ≡ socket_address req
unfolding resolve_client_ip socket_address
resolve_client_ip_untrusted number req header [] h = refl
resolve_client_ip_untrusted number req header (p ∷ ps) h = rw h

-- Behind trusted proxies the answer is the rightmost hop that is none of them: whatever stands to
-- the left of it in the header, where the client writes, changes nothing.
pub resolve_client_ip_closest :
    (number : String → Option ℕ) (req : RequestLike) (header : Header) (proxies : List String)
    (left : List String) (hop : String) (right : List String)
    → is_trusted number proxies (socket_address req) ≡ true
    → req.forwarded ≡ some header
    → is_missing header ≡ false
    → hops_of header ≡ left ++ hop ∷ right
    → is_trusted number proxies hop ≡ false
    → All (λ h. is_trusted number proxies h ≡ true) right
    → resolve_client_ip number req proxies ≡ hop
unfolding resolve_client_ip closest_hop
resolve_client_ip_closest number req header [] left hop right peer e present split_eq far near = cc
resolve_client_ip_closest number req header (p ∷ ps) left hop right peer e present split_eq far
      near =
    let untrusted = λ (h : String). not (is_trusted number (p ∷ ps) h) in
    rw (peer, e, present, split_eq)
      (rw (find-reverse untrusted left hop right (ap not far) (All-map (λ h. ap not) right near)))
