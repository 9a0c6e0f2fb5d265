-- ===== src/Media.antt =====
-- Media storage: the object keys of internal/gateway/mediastore.go. The clients of S3 and of the file
-- system are third-party; what they answer is an argument.
pub mod Keys
pub mod Examples
use Prim.Native.Char.{code}
use Prim.Native.String
use Prim.Native.String.{String, [], ◌∷◌}
use mathlib.Core.List.{List}
use wa_gateway.Base.{
  ℕ, Bool, ◌&&◌, ◌||◌, ◌==◌, leb, eqb, if◌then◌else◌, Option, none, some, trim, after_prefix,
}

-- the letters, digits, hyphen, underscore and dot
abbrev pub is_safe : ℕ → Bool
is_safe c =
    (leb 97 c && leb c 122)
    || (leb 65 c && leb c 90)
    || (leb 48 c && leb c 57)
    || eqb c 45
    || eqb c 95
    || eqb c 46

-- safeSegment
unfoldable pub safe_segment : String → String
safe_segment [] = ""
safe_segment (c ∷ s) =
    let rest = safe_segment s in if is_safe (code c) then c ∷ rest else "_" ∷ rest

abbrev pub with_dot : Option String → String → String
with_dot (some rest) ext = ext
with_dot none ext = "." ∷ ext

-- normalizeExt
unfoldable pub normalize_ext : String → String
normalize_ext ext = if ext == "" then "" else safe_segment (with_dot (after_prefix "." ext) ext)

-- mediaObjectKey
unfoldable pub media_object_key : String → String → String → String
media_object_key session id ext =
    String.◌++◌ (safe_segment session) ("/" ∷ (String.◌++◌ (safe_segment id) (normalize_ext ext)))

-- strings.IndexByte(s, ';') and the cut
unfoldable pub before_semicolon : String → String
before_semicolon [] = ""
before_semicolon (c ∷ s) = let rest = before_semicolon s in if eqb (code c) 59 then "" else c ∷ rest

-- extFromMime; `known` is mime.ExtensionsByType
unfoldable pub ext_from_mime : (String → List String) → String → String
ext_from_mime known mimetype =
    let m = trim (before_semicolon mimetype) in
    if m == "image/jpeg"
    then ".jpg"
    else if m == "image/png"
    then ".png"
    else if m == "image/webp"
    then ".webp"
    else if m == "image/gif"
    then ".gif"
    else if m == "video/mp4"
    then ".mp4"
    else if m == "audio/ogg"
    then ".ogg"
    else if m == "audio/mpeg"
    then ".mp3"
    else if m == "application/pdf"
    then ".pdf"
    else first_or_bin (known m)
  where
    first_or_bin : List String → String
    first_or_bin List.[] = ".bin"
    first_or_bin (List.◌∷◌ ext exts) = ext
