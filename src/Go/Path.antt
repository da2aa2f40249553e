-- ===== src/Go/Path.antt =====
-- Go's package path/filepath on Unix: Clean, Join, Base; and strings.TrimPrefix.
use gopher_cni.Go.Ip.{prefix}
use gopher_cni.Go.Text.{split, Text, codes, is_empty, starts_with_code, text_eq}
use gopher_cni.Prelude.{[], Bool, List, Option, if◌then◌else◌, none, some, ◌++◌, ◌==◌, ◌||◌, ◌∷◌}

abbrev pub slash : Text
slash = codes "/"

abbrev dot : Text
dot = codes "."

abbrev dot_dot : Text
dot_dot = codes ".."

-- ".." against what is kept, the last part first; a rooted path has nothing above its root.
unfoldable pub up : Bool → List Text → List Text
up rooted [] = if rooted then [] else dot_dot ∷ []
up rooted (p ∷ kept) = if text_eq p dot_dot then dot_dot ∷ p ∷ kept else kept

-- The parts that Clean keeps, the last one first.
unfoldable pub clean_parts : Bool → List Text → List Text → List Text
unfolding up
clean_parts rooted kept [] = kept
clean_parts rooted kept (p ∷ ps) =
    clean_parts rooted
      (if is_empty p || text_eq p dot
        then kept
        else if text_eq p dot_dot
        then up rooted kept
        else p ∷ kept)
      ps

-- The parts with slashes between them, from the last one first.
unfoldable pub join_parts : List Text → Text → Text
join_parts [] behind = behind
join_parts (p ∷ []) behind = p ++ behind
join_parts (p ∷ q ∷ ps) behind = join_parts (q ∷ ps) (slash ++ (p ++ behind))

-- filepath.Clean
unfoldable pub clean : Text → Text
unfolding clean_parts join_parts
clean path =
    let rooted = starts_with_code b'/' path in
    let out = join_parts (clean_parts rooted [] (split b'/' path)) [] in
    if rooted then slash ++ out else if is_empty out then dot else out

-- strings.Join(elems, "/")
unfoldable pub join_slash : List Text → Text
join_slash [] = []
join_slash (e ∷ []) = e
join_slash (e ∷ f ∷ es) = e ++ (slash ++ join_slash (f ∷ es))

-- filepath.Join: from the first part on that is not empty
unfoldable pub join : List Text → Text
unfolding clean join_slash
join [] = []
join (e ∷ es) = let rest = join es in if is_empty e then rest else clean (join_slash (e ∷ es))

last_part : Text → List Text → Text
last_part found [] = found
last_part found (p ∷ ps) = last_part (if is_empty p then found else p) ps

-- filepath.Base
unfoldable pub base : Text → Text
unfolding last_part
base path = if is_empty path then dot else last_part slash (split b'/' path)

-- what is left of the text behind the prefix
unfoldable pub strip_prefix : Text → Text → Option Text
strip_prefix [] s = some s
strip_prefix (c ∷ p) [] = none
strip_prefix (c ∷ p) (x ∷ s) = let rest = strip_prefix p s in if x == c then rest else none

-- strings.TrimPrefix(s, prefix)
unfoldable pub trim_prefix : Text → Text → Text
unfolding strip_prefix
trim_prefix s prefix = elim (strip_prefix prefix s) [ none ↦ s | some rest ↦ rest ]

-- what is before the last slash, with it
directory_part : List Text → Text
directory_part [] = []
directory_part (p ∷ []) = []
directory_part (p ∷ q ∷ ps) = p ++ (slash ++ directory_part (q ∷ ps))

-- filepath.Dir
unfoldable pub dir : Text → Text
unfolding directory_part
dir path = clean (directory_part (split b'/' path))
