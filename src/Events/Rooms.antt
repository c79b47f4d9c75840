-- ===== src/Events/Rooms.antt =====
-- The names of rooms.
use Prim.Native.Char.{Char}
use Prim.Native.String
use Prim.Native.String.{String, [], ◌∷◌}
use wp_open_aurora.Prelude.{ℕ, true, false, ◌≡◌, refl, ap, arith, ◌∙◌, sym}
use text.Mathlib.TextLemmas.{nil-append, cons-append}
use wp_open_aurora.Prelude.Text.{contains}
use wp_open_aurora.Events.{build_room_name}

-- Concatenation by clauses.
glue : String → String → String
glue [] t = t
glue (c ∷ s) t = c ∷ glue s t

append-glue : (s t : String) → String.◌++◌ s t ≡ glue s t
unfolding glue
append-glue [] t = nil-append t
append-glue (c ∷ s) t = cons-append c s t ∙ ap (λ x. c ∷ x) (append-glue s t)

contains-append : (d : ℕ) (t f : String) → contains d f ≡ true → contains d (glue t f) ≡ true
unfolding glue contains
contains-append d [] f h = h
contains-append d (c ∷ t) f h = ground (arith, contains-append d t f h)

contains_colon : (t f : String) → contains b':' (glue t (glue ":" f)) ≡ true
unfolding glue contains
contains_colon t f = contains-append b':' t (glue ":" f) refl

rest_of : String → String
rest_of [] = []
rest_of (c ∷ s) = s

first_of : String → Char → Char
first_of [] d = d
first_of (c ∷ s) d = c

-- The part of a text before its last colon is determined by the text.
colon_split :
    (s t e f : String)
    → contains b':' e ≡ false
    → contains b':' f ≡ false
    → glue s (glue ":" e) ≡ glue t (glue ":" f)
    → (s ≡ t) × (e ≡ f)
unfolding glue rest_of first_of
colon_split [] [] e f he hf h = (refl, ap rest_of h)
colon_split [] (c ∷ t) e f he hf h =
    let same : e ≡ glue t (glue ":" f) = ap rest_of h in
    absurd (cc (ap (contains b':') same, contains_colon t f))
colon_split (c ∷ s) [] e f he hf h =
    let same : glue s (glue ":" e) ≡ f = ap rest_of h in
    absurd (cc (ap (contains b':') same, contains_colon s e))
colon_split (c ∷ s) (d ∷ t) e f he hf h =
    let (same, events) = colon_split s t e f he hf (ap rest_of h) in
    let head : c ≡ d = ap (λ x. first_of x c) h in (cc, events)

skip_prefix : (s t : String) → glue "session:" s ≡ glue "session:" t → s ≡ t
unfolding glue rest_of
skip_prefix s t h =
    ap (λ x. rest_of (rest_of (rest_of (rest_of (rest_of (rest_of (rest_of (rest_of x)))))))) h

room_glued : (s e : String) → build_room_name s e ≡ glue "session:" (glue s (glue ":" e))
room_glued s e =
    append-glue "session:" _
    ∙ ap (glue "session:") (append-glue s _ ∙ ap (glue s) (append-glue ":" e))

-- A room is the room of one session and one event, if event names have no colon.
pub build_room_name_eq :
    (s t e f : String)
    → contains b':' e ≡ false
    → contains b':' f ≡ false
    → build_room_name s e ≡ build_room_name t f
    → (s ≡ t) × (e ≡ f)
build_room_name_eq s t e f he hf h =
    colon_split s t e f he hf (skip_prefix _ _ (sym (room_glued s e) ∙ h ∙ room_glued t f))
