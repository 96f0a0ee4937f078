-- ===== src/Headscale/Command.antt =====
-- internal/headscale/headscale.go: the command line that `run` gives to the shell of the host.
use mksrv.Common.{
  ◌≡◌, refl, ap, ◌∙◌, inl, inr, Option, none, some, List, [], ◌∷◌, ◌++◌, append_assoc, append-nil,
  ==_iff, ◌==◌, if◌then◌else◌, Bool-cases, Text, txt, join, ℕ,
}

-- strings.ReplaceAll(a, "'", `'\''`)
unfoldable pub escape : Text → Text
escape [] = []
escape (c ∷ a) = if c == 39 then 39 ∷ 92 ∷ 39 ∷ 39 ∷ escape a else c ∷ escape a

unfoldable pub quote : Text → Text
quote a = 39 ∷ escape a ++ 39 ∷ []

unfoldable pub quoted : List Text → List Text
quoted [] = []
quoted (a ∷ args) = quote a ∷ quoted args

unfoldable pub command : List Text → Text
command args = txt "sudo podman exec mksrv-headscale headscale " ++ join (quoted args) (txt " ")

-- A byte at the front of the first word.
pub push : ℕ → Option (List Text) → Option (List Text)
push c none = none
push c (some []) = none
push c (some (word ∷ others)) = some ((c ∷ word) ∷ others)

-- A new word in front of the others.
pub next_word : Option (List Text) → Option (List Text)
next_word none = none
next_word (some others) = some ([] ∷ others)

-- Where a shell stands: outside of quotes, behind a backslash there, or inside of single quotes.
pub data Quoting : Type 0 where
  outside : Quoting
  escaped : Quoting
  inside : Quoting

-- The words that a POSIX shell reads. Outside of quotes, a byte is refused unless it is a blank, a
-- quote, a backslash, or stands behind a backslash, so that nothing is expanded; a blank ends a word.
pub shell_words : Quoting → Text → Option (List Text)
shell_words outside [] = some ([] ∷ [])
shell_words outside (c ∷ s) =
    if c == 39
    then shell_words inside s
    else if c == 92
    then shell_words escaped s
    else if c == 32
    then next_word (shell_words outside s)
    else none
shell_words escaped [] = none
shell_words escaped (c ∷ s) = push c (shell_words outside s)
shell_words inside [] = none
shell_words inside (c ∷ s) =
    if c == 39 then shell_words outside s else push c (shell_words inside s)

push_all : Text → Option (List Text) → Option (List Text)
push_all [] found = found
push_all (c ∷ a) found = push c (push_all a found)

push_all-some :
    (a word : Text) (others : List Text)
    → push_all a (some (word ∷ others)) ≡ some ((a ++ word) ∷ others)
unfolding push_all push
push_all-some [] word others = refl
push_all-some (c ∷ a) word others = rw (push_all-some a word others) refl

-- An escaped text is read back inside of quotes.
shell_words-escape :
    (a rest : Text)
    → shell_words inside (escape a ++ 39 ∷ rest) ≡ push_all a (shell_words outside rest)
unfolding shell_words escape push_all
shell_words-escape [] rest = refl
shell_words-escape (c ∷ a) rest = elim (Bool-cases (c == 39)) [
  | inl quote_byte ↦
      let same : c ≡ 39 = (==_iff c 39).0 quote_byte in
      rw (quote_byte, shell_words-escape a rest, same) refl
  | inr other ↦ rw (other, other, shell_words-escape a rest) refl
]

-- The shell reads the arguments that `run` was given from the text that `run` quotes, whatever bytes
-- they hold: no argument is split, expanded, or runs a command. There is one argument at least.
pub shell_words-quoted :
    (a : Text) (args : List Text)
    → shell_words outside (join (quoted (a ∷ args)) (txt " ")) ≡ some (a ∷ args)
unfolding txt shell_words quoted quote join next_word
shell_words-quoted a [] = rw (shell_words-escape a [], push_all-some a [] [], append-nil a) refl
shell_words-quoted a (b ∷ args) =
    let rest = shell_words-quoted b args in
    rw (append_assoc (escape a) (39 ∷ []) (32 ∷ join (quoted (b ∷ args)) (txt " "))) (
      shell_words-escape a (32 ∷ join (quoted (b ∷ args)) (txt " "))
      ∙ ap (λ found. push_all a (next_word found)) rest
      ∙ push_all-some a [] (b ∷ args)
      ∙ ap (λ word. some (word ∷ b ∷ args)) (append-nil a))
