-- ===== src/Framing/Chunks.antt =====
-- The lines that LineDecoder of packages/protocol/src/framing.ts reads do not depend on how the
-- stream is cut into chunks.
use foundry_agent_workspace.Base.{
  ℕ, ◌≤◌, ◌≡◌, sym, subst, ap, ◌∙◌, inl, inr, Bool, false, ◌&&◌, List, [], ◌∷◌, ◌++◌, ◌==◌, leb,
  if◌then◌else◌, arith, Bool-cases, Result-cases, Result, ok, err, ◌>>=◌, Text, All, All-append,
  append_assoc, append-nil,
}
use foundry_agent_workspace.Framing.{
  FramingError, message_too_long, newline, is_low, is_high, bytes_from, byte_length, take_lines,
  push, append_lines, push_all,
}

bytes_from-append : (h : Bool) (xs ys : Text) → bytes_from h xs ≤ bytes_from h (xs ++ ys)
unfolding bytes_from
bytes_from-append h [] ys = omega arith
bytes_from-append h (c ∷ xs) ys =
    omega (arith, bytes_from-append (if h && is_low c then false else is_high c) xs ys)

-- A line that is already too long throws, whatever follows.
too_long :
    (limit : ℕ) (line t : Text)
    → leb (byte_length line) limit ≡ false
    → take_lines limit line t ≡ err message_too_long
unfolding take_lines
too_long limit line [] h = ground (arith, h)
too_long limit line (c ∷ t) h = elim (Bool-cases (c == newline)) [
  | inl stop ↦ ground (arith, stop, h)
  | inr more ↦ ground (
    arith,
    more,
    too_long limit (line ++ c ∷ []) t (ground (arith, h, bytes_from-append false line (c ∷ []))),
  )
]

abbrev pub OneLine : Text → Type 0
OneLine = All (λ (c : ℕ). (c == newline) ≡ false)

-- A text without a newline is read into the line.
take_lines-OneLine :
    (limit : ℕ) (line xs ys : Text)
    → OneLine xs
    → take_lines limit line (xs ++ ys) ≡ take_lines limit (line ++ xs) ys
unfolding take_lines
take_lines-OneLine limit line [] ys a = ap (λ l. take_lines limit l ys) (sym (append-nil line))
take_lines-OneLine limit line (c ∷ xs) ys (n, a) = ground (
  arith,
  n,
  take_lines-OneLine limit (line ++ c ∷ []) xs ys a
      ∙ ap (λ l. take_lines limit l ys) (append_assoc line (c ∷ []) xs),
)

rest-OneLine :
    (limit : ℕ) (line xs : Text) (lines : List Text) (rest : Text)
    → OneLine line
    → take_lines limit line xs ≡ ok (lines, rest)
    → OneLine rest
unfolding take_lines
rest-OneLine limit line [] lines rest a e = elim (Bool-cases (leb (byte_length line) limit)) [
  | inl fits ↦ let own : line ≡ rest = ground (arith, e, fits) in subst OneLine own a
  | inr long ↦ absurd (ground (arith, e, long))
]
rest-OneLine limit line (c ∷ xs) lines rest a e = elim (Bool-cases (c == newline)) [
  | inr more ↦
      rest-OneLine limit (line ++ c ∷ []) xs lines rest
        (All-append (λ (k : ℕ). (k == newline) ≡ false) line (c ∷ []) a (more, tt))
        (ground (arith, e, more))
  | inl stop ↦ elim (Result-cases (take_lines limit [] xs)) [
    | inr (f, refused) ↦ absurd (ground (arith, e, stop, refused))
    | inl ((ms, r), found) ↦
        let own : r ≡ rest = ground (arith, e, stop, found) in
        subst OneLine own (rest-OneLine limit [] xs ms r tt found)
  ]
]

-- The lines of what was read, and then those of the rest.
abbrev continue :
    ℕ → Text → Result FramingError (List Text × Text) → Result FramingError (List Text × Text)
continue limit t (err f) = err f
continue limit t (ok (lines, rest)) =
    take_lines limit rest t >>= λ later. ok (append_lines lines later)

take_lines-append :
    (limit : ℕ) (line xs ys : Text)
    → take_lines limit line (xs ++ ys) ≡ continue limit ys (take_lines limit line xs)
unfolding take_lines
take_lines-append limit line [] ys = elim (Bool-cases (leb (byte_length line) limit)) [
  | inr long ↦ ground (arith, long, too_long limit line ys long)
  | inl fits ↦ elim (Result-cases (take_lines limit line ys)) [
    | inr (f, refused) ↦ ground (arith, fits, refused)
    | inl ((ms, r), found) ↦ ground (arith, fits, found)
  ]
]
take_lines-append limit line (c ∷ xs) ys = elim (Bool-cases (c == newline)) [
  | inr more ↦ ground (arith, more, take_lines-append limit (line ++ c ∷ []) xs ys)
  | inl stop ↦
      let rest = take_lines-append limit [] xs ys in
      elim (Result-cases (take_lines limit [] xs)) [
        | inr (f, refused) ↦ ground (arith, stop, rest, refused)
        | inl ((ls, b), found) ↦ elim (Result-cases (take_lines limit b ys)) [
          | inr (f, refused) ↦ ground (arith, stop, rest, found, refused)
          | inl ((ms, r), later) ↦ ground (arith, stop, rest, found, later)
        ]
      ]
]

abbrev pub joined : List Text → Text
joined [] = []
joined (t ∷ ts) = t ++ joined ts

push_all-joined :
    (limit : ℕ) (buffer chunk : Text) (chunks : List Text)
    → OneLine buffer
    → push_all limit buffer (chunk ∷ chunks) ≡ push limit buffer (chunk ++ joined chunks)
unfolding push_all push
push_all-joined limit buffer chunk [] a =
    let e : take_lines limit [] (buffer ++ (chunk ++ [])) ≡ take_lines limit [] (buffer ++ chunk) =
      ap (λ t. take_lines limit [] (buffer ++ t)) (append-nil chunk) in
    elim (Result-cases (take_lines limit [] (buffer ++ chunk))) [
      | inr (f, refused) ↦ ground (arith, e, refused)
      | inl ((ls, b), found) ↦ ground (arith, e, found, append-nil ls)
    ]
push_all-joined limit buffer chunk (next ∷ chunks) a =
    let later = next ++ joined chunks in
    let e : take_lines limit [] (buffer ++ (chunk ++ later))
        ≡ continue limit later (take_lines limit [] (buffer ++ chunk)) =
      ap (take_lines limit []) (sym (append_assoc buffer chunk later))
      ∙ take_lines-append limit [] (buffer ++ chunk) later in
    elim (Result-cases (take_lines limit [] (buffer ++ chunk))) [
      | inr (f, refused) ↦ ground (arith, e, refused)
      | inl ((ls, b), found) ↦
          let one : OneLine b = rest-OneLine limit [] (buffer ++ chunk) ls b tt found in
          let again = push_all-joined limit b next chunks one in
          let same : take_lines limit [] (b ++ later) ≡ take_lines limit b later =
            take_lines-OneLine limit [] b later one in
          elim (Result-cases (take_lines limit b later)) [
            | inr (f, refused) ↦ ground (arith, e, found, again, same, refused)
            | inl ((ms, r), rest) ↦ ground (arith, e, found, again, same, rest)
          ]
    ]

-- A fresh decoder that is given a stream in chunks gives the lines, the rest or the error that it
-- gives for the whole stream in one chunk, wherever the chunks are cut, also inside a surrogate
-- pair.
pub push_all_chunks :
    (limit : ℕ) (chunk : Text) (chunks : List Text)
    → push_all limit [] (chunk ∷ chunks) ≡ push limit [] (joined (chunk ∷ chunks))
push_all_chunks limit chunk chunks = push_all-joined limit [] chunk chunks tt
