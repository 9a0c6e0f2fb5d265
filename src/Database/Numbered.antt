-- ===== src/Database/Numbered.antt =====
-- What rebind (internal/gateway/db.go) makes of a query that is given by the pieces between its
-- placeholders.
use Prim.Native.Char.{code}
use Prim.Native.String
use Prim.Native.String.{String, [], ◌∷◌}
use text.Mathlib.TextLemmas.{nil-append, cons-append}
use mathlib.Core.List.{List}
use wa_gateway.Base.{ℕ, suc, false, ◌≡◌, refl, sym, ◌∙◌, eqb, All, Bool-cases, inl, inr, arith}
use wa_gateway.Database.{rebind, rebind_from, itoa, contains_mark}

abbrev pub NoMark : String → Type 0
NoMark [] = Unit
NoMark (c ∷ s) = (eqb (code c) 63 ≡ false) × NoMark s

-- the query of the pieces `p`, `ps`, with a question mark between two
unfoldable pub query_of : String → List String → String
query_of p List.[] = p
query_of p (List.◌∷◌ q ps) = String.◌++◌ p ("?" ∷ query_of q ps)

-- the pieces with $n+1, $n+2, ... between them
unfoldable pub numbered : ℕ → String → List String → String
numbered n p List.[] = p
numbered n p (List.◌∷◌ q ps) =
    String.◌++◌ p ("$" ∷ (String.◌++◌ (itoa (suc n)) (numbered (suc n) q ps)))

rebind_from-plain : (n : ℕ) (p : String) → NoMark p → rebind_from n p ≡ p
unfolding rebind_from
rebind_from-plain n [] h = refl
rebind_from-plain n (c ∷ p) (m, h) = rw (m, rebind_from-plain n p h) refl

rebind_from-append :
    (n : ℕ) (p s : String)
    → NoMark p
    → rebind_from n (String.◌++◌ p s) ≡ String.◌++◌ p (rebind_from n s)
unfolding rebind_from
rebind_from-append n [] s h = rw (nil-append, nil-append) refl
rebind_from-append n (c ∷ p) s (m, h) =
    rw (cons-append, m, rebind_from-append n p s h, cons-append) refl

rebind_from-query_of :
    (n : ℕ) (p : String) (ps : List String)
    → NoMark p
    → All NoMark ps
    → rebind_from n (query_of p ps) ≡ numbered n p ps
unfolding query_of numbered rebind_from
rebind_from-query_of n p List.[] m h = rebind_from-plain n p m
rebind_from-query_of n p (List.◌∷◌ q ps) m (k, h) =
    rw (rebind_from-append n p _ m, rebind_from-query_of (suc n) q ps k h) refl

-- without a mark the loop would change nothing
rebind_from-unmarked : (n : ℕ) (s : String) → contains_mark s ≡ false → rebind_from n s ≡ s
unfolding rebind_from contains_mark
rebind_from-unmarked n [] e = refl
rebind_from-unmarked n (c ∷ s) e =
    let m : eqb (code c) 63 ≡ false = ground arith in
    let plain : contains_mark s ≡ false = ground arith in
    rw (m, rebind_from-unmarked n s plain) refl

rebind-rebind_from : (q : String) → rebind q ≡ rebind_from 0 q
unfolding rebind
rebind-rebind_from q = elim (Bool-cases (contains_mark q)) [
  | inl e ↦ rw e refl
  | inr e ↦ rw e (sym (rebind_from-unmarked 0 q e))
]

-- If the pieces of a query hold no question mark, rebind puts $1, $2, ... in the place of the question
-- marks between them, in order, and changes nothing else.
pub rebind-query_of :
    (p : String) (ps : List String)
    → NoMark p
    → All NoMark ps
    → rebind (query_of p ps) ≡ numbered 0 p ps
rebind-query_of p ps m h = rebind-rebind_from (query_of p ps) ∙ rebind_from-query_of 0 p ps m h
