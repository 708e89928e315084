-- ===== src/Git/Texts.antt =====
-- The string, array and Buffer methods that packages/runtime/src/git-operations.ts uses, its regular
-- expressions, and its loops over slices of a list.
use foundry_agent_workspace.Base.{
  drop, take, ℕ, zero, suc, ◌+◌, ◌-◌, ◌*◌, ◌/◌, ◌%◌, Bool, true, false, not, ◌&&◌, ◌||◌, Option,
  none, some, List, [], ◌∷◌, ◌++◌, reverse, ◌==◌, ltb, leb, if◌then◌else◌, length, any, all, filter,
  nth, Text, text_eq, split,
}

abbrev pub is_empty : {A : Type 0} → List A → Bool
is_empty [] = true
is_empty (x ∷ xs) = false

abbrev pub not_empty : {A : Type 0} → List A → Bool
not_empty xs = not (is_empty xs)

-- `field ?? ''`
abbrev pub or_blank : Option Text → Text
or_blank none = []
or_blank (some t) = t

abbrev pub text_or : Option Text → Text → Text
text_or none t = t
text_or (some s) t = s

-- `text.charAt(i) === c`
unfoldable pub char_is : ℕ → ℕ → Text → Bool
char_is i c t = elim (nth i t) [ none ↦ false | some d ↦ d == c ]

unfoldable pub is_space : ℕ → Bool
is_space c =
    (leb 9 c && leb c 13)
    || c == 32
    || c == 160
    || c == 5760
    || (leb 8192 c && leb c 8202)
    || c == 8232
    || c == 8233
    || c == 8239
    || c == 8287
    || c == 12288
    || c == 65279

unfoldable pub trim_start : Text → Text
unfolding is_space
trim_start [] = []
trim_start (c ∷ t) = if is_space c then trim_start t else c ∷ t

unfoldable pub trim : Text → Text
unfolding trim_start
trim t = reverse (trim_start (reverse (trim_start t)))

-- `text.split('\0').filter(Boolean)`
unfoldable pub split_nul : Text → List Text
split_nul t = filter not_empty (split 0 t)

-- The same with the last, empty token popped, if there is one.
unfoldable pub pop_blank : List Text → List Text
pop_blank [] = []
pop_blank (t ∷ []) = if is_empty t then [] else t ∷ []
pop_blank (t ∷ (u ∷ ts)) = t ∷ pop_blank (u ∷ ts)

-- `for (let index = 0; index < items.length; index += size)`, with `items.slice(index, index + size)`.
-- The fuel is the number of items: each round takes one at least.
unfoldable pub slices_on : {A : Type 0} → ℕ → ℕ → List A → List (List A)
unfolding take drop
slices_on zero size xs = []
slices_on (suc f) size [] = []
slices_on (suc f) size (x ∷ xs) = take size (x ∷ xs) ∷ slices_on f size (drop size (x ∷ xs))

unfoldable pub slices : {A : Type 0} → ℕ → List A → List (List A)
unfolding slices_on
slices size xs = slices_on (length xs) size xs

unfoldable pub is_hex : ℕ → Bool
is_hex c = (leb b'0' c && leb c b'9') || (leb b'a' c && leb c b'f') || (leb b'A' c && leb c b'F')

-- /^[0-9a-f]{40}$/i
unfoldable pub is_object_id : Text → Bool
unfolding is_hex
is_object_id t = length t == 40 && all is_hex t

abbrev pub hex_group : ℕ → Text → Bool
hex_group n t = length t == n && all is_hex t

-- [1-5] and [89ab]
abbrev pub is_version : ℕ → Bool
is_version c = leb b'1' c && leb c b'5'

abbrev pub is_variant : ℕ → Bool
is_variant c = c == b'8' || c == b'9' || c == b'a' || c == b'b' || c == b'A' || c == b'B'

abbrev pub first_is : (ℕ → Bool) → Text → Bool
first_is p [] = false
first_is p (c ∷ t) = p c

unfoldable pub uuid_groups : List Text → Bool
unfolding is_hex
uuid_groups (a ∷ (b ∷ (c ∷ (d ∷ (e ∷ []))))) =
    hex_group 8 a
    && hex_group 4 b
    && (hex_group 4 c && first_is is_version c)
    && (hex_group 4 d && first_is is_variant d)
    && hex_group 12 e
uuid_groups _ = false

-- CHILD_UUID_PATTERN
unfoldable pub is_uuid : Text → Bool
unfolding uuid_groups
is_uuid t = uuid_groups (split b'-' t)

abbrev pub is_high : ℕ → Bool
is_high c = leb 55296 c && leb c 56319

abbrev pub is_low : ℕ → Bool
is_low c = leb 56320 c && leb c 57343

unfoldable pub utf8_unit : ℕ → List ℕ
utf8_unit c =
    if ltb c 128
    then c ∷ []
    else if ltb c 2048
    then (192 + c / 64) ∷ (128 + c % 64) ∷ []
    else if is_high c || is_low c
    then 239 ∷ 191 ∷ 189 ∷ []
    else (224 + c / 4096) ∷ (128 + c / 64 % 64) ∷ (128 + c % 64) ∷ []

abbrev pub utf8_pair : ℕ → ℕ → List ℕ
utf8_pair c d =
    let p = 65536 + (c - 55296) * 1024 + (d - 56320) in
    (240 + p / 262144) ∷ (128 + p / 4096 % 64) ∷ (128 + p / 64 % 64) ∷ (128 + p % 64) ∷ []

-- `Buffer.from(text, 'utf8')`: a surrogate pair is one code point, a lone surrogate is U+FFFD.
unfoldable pub utf8 : Text → List ℕ
unfolding utf8_unit
utf8 [] = []
utf8 (c ∷ []) = utf8_unit c
utf8 (c ∷ (d ∷ t)) =
    let alone = utf8_unit c ++ utf8 (d ∷ t) in
    let paired = utf8_pair c d ++ utf8 t in if is_high c && is_low d then paired else alone

unfoldable pub byte_length : Text → ℕ
unfolding utf8
byte_length t = length (utf8 t)

-- `Buffer.compare(a, b) <= 0`
unfoldable pub bytes_le : List ℕ → List ℕ → Bool
bytes_le [] bs = true
bytes_le (a ∷ as_) [] = false
bytes_le (a ∷ as_) (b ∷ bs) = ltb a b || (a == b && bytes_le as_ bs)

unfoldable pub path_le : Text → Text → Bool
unfolding bytes_le utf8
path_le s t = bytes_le (utf8 s) (utf8 t)

-- A stable sort, as that of JavaScript is.
unfoldable pub insert_by : {A : Type 0} → (A → A → Bool) → A → List A → List A
insert_by le x [] = x ∷ []
insert_by le x (y ∷ ys) = if le x y then x ∷ (y ∷ ys) else y ∷ insert_by le x ys

unfoldable pub sort_by : {A : Type 0} → (A → A → Bool) → List A → List A
unfolding insert_by
sort_by le [] = []
sort_by le (x ∷ xs) = insert_by le x (sort_by le xs)

abbrev pub mem_text : Text → List Text → Bool
mem_text t ts = any (text_eq t) ts
