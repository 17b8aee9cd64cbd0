-- ===== src/Relay/Shell.antt =====
-- How a POSIX shell splits a simple command into words, for commands that use no more than blanks,
-- plain characters and quotes; `none` stands for any other character that the shell may treat.
use codex_ha_monitor.Prelude.{
  ℕ, Bool, ◌||◌, List, [], ◌∷◌, ◌++◌, Option, none, some, any, leb, ◌&&◌, ◌==◌, if◌then◌else◌, ◌≡◌,
  refl,
}
use codex_ha_monitor.Text.{codes}
use codex_ha_monitor.Relay.{Bytes, single_quote, double_quote}

-- Where the shell is: between words, in a word, or in quotes of a word.
pub data Mode : Type 0 where
  between in_word in_single in_double : Mode

-- The characters that stand for themselves outside quotes.
pub is_plain : ℕ → Bool
is_plain c =
    (leb b'a' c && leb c b'z')
    || (leb b'A' c && leb c b'Z')
    || (leb b'0' c && leb c b'9')
    || any (λ d. c == d) (codes "-_./:,+@%")

-- The characters that are still special between double quotes.
unfoldable pub is_expanded : ℕ → Bool
is_expanded c = any (λ d. c == d) (codes "$`\\\"")

abbrev pub finish_word : Bytes → Option (List Bytes) → Option (List Bytes)
finish_word word none = none
finish_word word (some words) = some (word ∷ words)

-- Reads on with the word so far.
unfoldable pub read : Mode → Bytes → Bytes → Option (List Bytes)
read between word [] = some []
read in_word word [] = some (word ∷ [])
read in_single word [] = none
read in_double word [] = none
read in_single word (c ∷ s) =
    let closed = read in_word word s in
    let longer = read in_single (word ++ c ∷ []) s in if c == single_quote then closed else longer
read in_double word (c ∷ s) =
    let closed = read in_word word s in
    let longer = read in_double (word ++ c ∷ []) s in
    if c == double_quote then closed else if is_expanded c then none else longer
read between word (c ∷ s) =
    let blank = read between [] s in
    let single = read in_single [] s in
    let double = read in_double [] s in
    let longer = read in_word (c ∷ []) s in
    if c == b' '
    then blank
    else if c == single_quote
    then single
    else if c == double_quote
    then double
    else if is_plain c
    then longer
    else none
read in_word word (c ∷ s) =
    let blank = finish_word word (read between [] s) in
    let single = read in_single word s in
    let double = read in_double word s in
    let longer = read in_word (word ++ c ∷ []) s in
    if c == b' '
    then blank
    else if c == single_quote
    then single
    else if c == double_quote
    then double
    else if is_plain c
    then longer
    else none

-- The words of a command.
unfoldable pub words : Bytes → Option (List Bytes)
unfolding read is_plain is_expanded
words command = read between [] command

mixed_quotes : words (codes "a 'b c'\"'\"d") ≡ some (codes "a" ∷ codes "b c'd" ∷ [])
unfolding words
mixed_quotes = refl
