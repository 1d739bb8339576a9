-- ===== src/Pathsafe.antt =====
-- crates/core/src/pathsafe.rs: the relative paths of received files. A text is a list of code
-- points; `byte_len` is the length of its UTF-8 form.
pub mod Component
pub mod Length
pub mod Safe
pub mod Again
mod Examples
use mathlib.Core.Option
use blt.Base.{
  ℕ, zero, suc, ◌+◌, ◌-◌, Bool, true, false, not, ◌&&◌, ◌||◌, Option, none, some, List, [], ◌∷◌,
  ◌++◌, map, ltb, leb, ◌==◌, length, if◌then◌else◌, take, drop, any,
}
use blt.Base.Result.{Result, ok, err, ◌>>=◌}
use blt.Base.Text.{Text, text, ◌=t◌}

abbrev pub max_rel_path_len : ℕ
max_rel_path_len = 230

abbrev pub max_component_len : ℕ
max_component_len = 255

pub data PathSafetyError : Type 0 where
  traversal absolute empty : PathSafetyError
  too_long : (len max : ℕ) → PathSafetyError

-- `char::len_utf8`
abbrev pub len_utf8 : ℕ → ℕ
len_utf8 c = if ltb c 128 then 1 else if ltb c 2048 then 2 else if ltb c 65536 then 3 else 4

-- `str::len`
unfoldable pub byte_len : Text → ℕ
byte_len [] = 0
byte_len (c ∷ s) = len_utf8 c + byte_len s

abbrev illegal : List ℕ
illegal = b'<' ∷ b'>' ∷ b':' ∷ b'"' ∷ b'|' ∷ b'?' ∷ b'*' ∷ b'/' ∷ b'\\' ∷ []

-- `ILLEGAL.contains(&c) || c.is_control()`; the control characters are those of Unicode's Cc.
unfoldable pub is_bad : ℕ → Bool
is_bad c = any (λ i. i == c) illegal || (ltb c 32 || (leb 127 c && leb c 159))

-- `char::to_ascii_uppercase`
abbrev pub upper : ℕ → ℕ
upper c = if leb b'a' c && leb c b'z' then c - 32 else c

abbrev pub tail_is_digit_1_9 : Text → Bool
tail_is_digit_1_9 [] = false
tail_is_digit_1_9 (c ∷ []) = leb b'1' c && leb c b'9'
tail_is_digit_1_9 (c ∷ d ∷ s) = false

unfoldable pub is_reserved_windows_name : Text → Bool
is_reserved_windows_name stem =
    let u = map upper stem in
    (u =t text "CON")
    || (u =t text "PRN")
    || (u =t text "AUX")
    || (u =t text "NUL")
    || ((take 3 u =t text "COM") && tail_is_digit_1_9 (drop 3 u))
    || ((take 3 u =t text "LPT") && tail_is_digit_1_9 (drop 3 u))

abbrev pub is_dot_or_space : ℕ → Bool
is_dot_or_space c = (c == b' ') || (c == b'.')

-- `c` in front of a trimmed text
abbrev pub trim_front : ℕ → Text → Text
trim_front c [] = if is_dot_or_space c then [] else c ∷ []
trim_front c (d ∷ s) = c ∷ d ∷ s

-- `trim_end_matches([' ', '.'])`
unfoldable pub trim_end : Text → Text
trim_end [] = []
trim_end (c ∷ s) = trim_front c (trim_end s)

-- `split('.').next()`
unfoldable pub before_dot : Text → Text
before_dot [] = []
before_dot (c ∷ s) = let rest = before_dot s in if c == b'.' then [] else c ∷ rest

-- `rsplit_once`
unfoldable pub rsplit_once : ℕ → Text → Option (Text × Text)
rsplit_once sep [] = none
rsplit_once sep (c ∷ s) = elim (rsplit_once sep s) [
  | some (before, after) ↦ some (c ∷ before, after)
  | none ↦ if c == sep then some ([], s) else none
]

abbrev pub is_empty : Text → Bool
is_empty [] = true
is_empty (c ∷ s) = false

unfoldable pub truncate_keep_ext : Text → ℕ → Text
unfolding rsplit_once byte_len
truncate_keep_ext s max = elim (rsplit_once b'.' s) [
  | none ↦ take max s
  | some (stem, ext) ↦
      if ltb (byte_len ext + 1) max && not (is_empty ext)
      then take (max - byte_len ext - 1) stem ++ b'.' ∷ ext
      else take max s
]

abbrev pub or_underscore : Text → Text
or_underscore [] = b'_' ∷ []
or_underscore (c ∷ s) = c ∷ s

unfoldable pub escape : Text → Text
unfolding before_dot is_reserved_windows_name
escape s = if is_reserved_windows_name (before_dot s) then b'_' ∷ s else s

unfoldable pub cap : Text → Text
unfolding truncate_keep_ext
cap s = if ltb max_component_len (byte_len s) then truncate_keep_ext s max_component_len else s

-- The characters replaced, and the trailing dots and spaces removed.
unfoldable pub clean : Text → Text
unfolding is_bad trim_end
clean raw = or_underscore (trim_end (map (λ c. if is_bad c then b'_' else c) raw))

unfoldable pub sanitize_component : Text → Option Text
unfolding clean escape cap
sanitize_component raw =
    if is_empty raw || (raw =t text ".") then none else some (cap (escape (clean raw)))

abbrev pub is_separator : ℕ → Bool
is_separator c = (c == b'/') || (c == b'\\')

-- `c` in front of the first part
abbrev pub push_front : ℕ → List Text → List Text
push_front c [] = (c ∷ []) ∷ []
push_front c (part ∷ parts) = (c ∷ part) ∷ parts

-- `split(['/', '\\'])`
unfoldable pub split_parts : Text → List Text
split_parts [] = [] ∷ []
split_parts (c ∷ s) =
    let rest = split_parts s in if is_separator c then [] ∷ rest else push_front c rest

-- Two bytes, an ASCII letter and a colon
abbrev pub is_drive : Text → Bool
is_drive [] = false
is_drive (c ∷ []) = false
is_drive (c ∷ d ∷ []) = (d == b':') && ((leb b'a' c && leb c b'z') || (leb b'A' c && leb c b'Z'))
is_drive (c ∷ d ∷ e ∷ s) = false

abbrev pub push_some : Option Text → List Text → List Text
push_some none out = out
push_some (some c) out = c ∷ out

-- The loop over the parts; `first` says that the index is 0.
unfoldable pub sanitize_parts : Bool → List Text → Result PathSafetyError (List Text)
unfolding sanitize_component
sanitize_parts first [] = ok []
sanitize_parts first (part ∷ parts) =
    let rest = sanitize_parts false parts in
    if part =t text ".."
    then err traversal
    else if first && is_drive part
    then err absolute
    else rest >>= (λ out. ok (push_some (sanitize_component part) out))

-- `join("/")`
unfoldable pub join : List Text → Text
join [] = []
join (part ∷ []) = part
join (part ∷ next ∷ parts) = part ++ b'/' ∷ join (next ∷ parts)

abbrev pub no_parts : List Text → Bool
no_parts [] = true
no_parts (part ∷ parts) = false

unfoldable pub finish : List Text → Result PathSafetyError Text
unfolding join byte_len
finish out =
    if no_parts out
    then err empty
    else if ltb max_rel_path_len (byte_len (join out))
    then err (too_long (byte_len (join out)) max_rel_path_len)
    else ok (join out)

unfoldable pub sanitize_rel_path : Text → Result PathSafetyError Text
unfolding split_parts sanitize_parts finish
sanitize_rel_path raw = sanitize_parts true (split_parts raw) >>= finish
