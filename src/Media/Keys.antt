-- ===== src/Media/Keys.antt =====
-- The shape of the keys under which media objects are stored (internal/gateway/mediastore.go).
use Prim.Native.Char.{code}
use Prim.Native.String
use Prim.Native.String.{String, [], ◌∷◌}
use text.Mathlib.TextLemmas.{nil-append, cons-append}
use wa_gateway.Base.{true, false, ◌≡◌, refl, arith, eqb, ◌==◌, if◌then◌else◌, Bool-cases, inl, inr}
use wa_gateway.Media.{is_safe, safe_segment, normalize_ext, media_object_key}

-- every character is a letter, a digit, a hyphen, an underscore or a dot
abbrev pub IsSafe : String → Type 0
IsSafe [] = Unit
IsSafe (c ∷ s) = (is_safe (code c) ≡ true) × IsSafe s

safe_segment-IsSafe : (s : String) → IsSafe (safe_segment s)
unfolding safe_segment
safe_segment-IsSafe [] = tt
safe_segment-IsSafe (c ∷ s) = elim (Bool-cases (is_safe (code c))) [
  | inl e ↦ rw e (e, safe_segment-IsSafe s)
  | inr e ↦ rw e (refl, safe_segment-IsSafe s)
]

-- the text before the first slash, and what follows it
unfoldable pub split_slash : String → String × String
split_slash [] = ("", "")
split_slash (c ∷ s) =
    let (front, back) = split_slash s in if eqb (code c) 47 then ("", s) else (c ∷ front, back)

split_slash-append : (p s : String) → IsSafe p → split_slash (String.◌++◌ p ("/" ∷ s)) ≡ (p, s)
unfolding split_slash
split_slash-append [] s h = rw nil-append refl
split_slash-append (c ∷ p) s (q, h) =
    let other : eqb (code c) 47 ≡ false = ground arith in
    rw (cons-append, other, split_slash-append p s h) refl

IsSafe-append : (p s : String) → IsSafe p → IsSafe s → IsSafe (String.◌++◌ p s)
IsSafe-append [] s h k = rw nil-append k
IsSafe-append (c ∷ p) s (q, h) k = rw cons-append (q, IsSafe-append p s h k)

normalize_ext-IsSafe : (ext : String) → IsSafe (normalize_ext ext)
unfolding normalize_ext
normalize_ext-IsSafe ext = elim (Bool-cases (ext == "")) [
  | inl e ↦ rw e tt
  | inr e ↦ rw e (safe_segment-IsSafe _)
]

-- a key that splits at its first slash into a directory and a file name of safe characters only, the
-- directory being the session's
pub record IsObjectKey (session key : String) : Type 0 where
  pub file : String
  pub parts : split_slash key ≡ (safe_segment session, file)
  pub safe_directory : IsSafe (safe_segment session)
  pub safe_file : IsSafe file

-- Whatever the session's name, the message's id and the extension are, the key has one slash: before
-- it stands the session's name and after it the file's, both of letters, digits, `-`, `_` and `.`
-- only.
pub media_object_key-IsObjectKey :
    (session id ext : String) → IsObjectKey session (media_object_key session id ext)
unfolding media_object_key
media_object_key-IsObjectKey session id ext = record {
  file = String.◌++◌ (safe_segment id) (normalize_ext ext);
  parts = split_slash-append (safe_segment session) _ (safe_segment-IsSafe session);
  safe_directory = safe_segment-IsSafe session;
  safe_file = IsSafe-append _ _ (safe_segment-IsSafe id) (normalize_ext-IsSafe ext);
}
