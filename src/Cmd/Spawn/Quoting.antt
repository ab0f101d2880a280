-- ===== src/Cmd/Spawn/Quoting.antt =====
-- What a POSIX shell reads a quoted word as.
use mure.Base.{
  ℕ, ◌≡◌, refl, sym, ap, ◌∙◌, Bool, true, false, not, ◌||◌, ◌&&◌, List, [], ◌∷◌, ◌++◌, append_assoc,
  append-nil, Option, none, some, Bytes, codes, ◌==◌, if◌then◌else◌, arith, All, is_empty, if_ind,
}
use mure.Cmd.Spawn.{escape_quotes, shell_escape, assignment, SpawnEnv, inner, spawn_payload}

-- Where the shell's reader stands: outside quotes, in single quotes, or behind a backslash.
pub data Place : Type 0 where
  bare quoted escaped : Place

unfoldable pub next_place : Place → ℕ → Place
next_place bare c = if c == b'\'' then quoted else if c == b'\\' then escaped else bare
next_place quoted c = if c == b'\'' then bare else quoted
next_place escaped c = bare

-- Whether the byte is one of the word, and not a quote.
unfoldable pub is_kept : Place → ℕ → Bool
is_kept bare c = not (c == b'\'' || c == b'\\')
is_kept quoted c = not (c == b'\'')
is_kept escaped c = true

unfoldable pub contains_byte : ℕ → Bytes → Bool
contains_byte c [] = false
contains_byte c (d ∷ s) = c == d || contains_byte c s

-- The bytes that end a word or that the shell expands.
unfoldable pub is_special : ℕ → Bool
unfolding contains_byte
is_special c = contains_byte c (codes "|&;<>()$`\" \t\n*?[#~")

abbrev pub prepend : Bytes → Option Bytes → Option Bytes
prepend p none = none
prepend p (some s) = some (p ++ s)

abbrev pub at_end : Place → Option Bytes
at_end bare = some []
at_end _ = none

abbrev pub is_bare : Place → Bool
is_bare bare = true
is_bare _ = false

-- The value of a text that the shell reads as one word; nothing if it is not one word, or if the
-- shell would expand it.
unfoldable pub read_word : Place → Bytes → Option Bytes
unfolding next_place is_kept is_special
read_word p [] = at_end p
read_word p (c ∷ s) =
    let rest = read_word (next_place p c) s in
    if is_bare p && is_special c then none else if is_kept p c then prepend (c ∷ []) rest else rest

prepend-nil : (o : Option Bytes) → prepend [] o ≡ o
prepend-nil none = refl
prepend-nil (some t) = refl

prepend-cons :
    (c : ℕ) (s : Bytes) (o : Option Bytes) → prepend (c ∷ []) (prepend s o) ≡ prepend (c ∷ s) o
prepend-cons c s none = refl
prepend-cons c s (some t) = refl

read_word-quoted :
    (c : ℕ) (s : Bytes)
    → (c == b'\'') ≡ false
    → read_word quoted (c ∷ s) ≡ prepend (c ∷ []) (read_word quoted s)
unfolding read_word next_place is_kept
read_word-quoted c s f = rw f

read_word-quote :
    (s : Bytes)
    → read_word quoted (b'\'' ∷ b'\\' ∷ b'\'' ∷ b'\'' ∷ s)
      ≡ prepend (b'\'' ∷ []) (read_word quoted s)
unfolding read_word next_place is_kept is_special contains_byte
read_word-quote s = refl

read_word-escape_quotes :
    (s rest : Bytes)
    → read_word quoted (escape_quotes s ++ (b'\'' ∷ rest)) ≡ prepend s (read_word bare rest)
unfolding escape_quotes read_word next_place is_kept
read_word-escape_quotes [] rest = sym (prepend-nil (read_word bare rest))
read_word-escape_quotes (c ∷ s) rest =
    let ih = read_word-escape_quotes s rest in
    if_ind
      (λ (t : Bytes).
        read_word quoted (t ++ (b'\'' ∷ rest)) ≡ prepend (c ∷ s) (read_word bare rest))
      (c == b'\'') _ _
      (λ e.
        let q : b'\'' ≡ c = ground arith in
        read_word-quote (escape_quotes s ++ (b'\'' ∷ rest))
        ∙ ap (prepend (b'\'' ∷ [])) ih
        ∙ prepend-cons b'\'' s (read_word bare rest)
        ∙ ap (λ x. prepend (x ∷ s) (read_word bare rest)) q)
      (λ f.
        read_word-quoted c (escape_quotes s ++ (b'\'' ∷ rest)) f
        ∙ ap (prepend (c ∷ [])) ih
        ∙ prepend-cons c s (read_word bare rest))

-- Whatever follows it, an escaped text is read as that text.
pub read_word-shell_escape :
    (s rest : Bytes) → read_word bare (shell_escape s ++ rest) ≡ prepend s (read_word bare rest)
unfolding shell_escape read_word next_place is_kept is_special contains_byte
read_word-shell_escape s rest =
    ap (λ t. read_word quoted t) (append_assoc (escape_quotes s) (b'\'' ∷ []) rest)
    ∙ read_word-escape_quotes s rest

escaped_alone : (s : Bytes) → read_word bare (shell_escape s) ≡ some s
unfolding read_word
escaped_alone s =
    ap (read_word bare) (sym (append-nil (shell_escape s)))
    ∙ read_word-shell_escape s []
    ∙ ap some (append-nil s)

-- A byte that stands for itself outside quotes.
pub record IsPlain (c : ℕ) : Type 0 where
  pub common : is_special c ≡ false
  pub no_quote : (c == b'\'') ≡ false
  pub no_backslash : (c == b'\\') ≡ false

read_word-IsPlain :
    (p s : Bytes) → All IsPlain p → read_word bare (p ++ s) ≡ prepend p (read_word bare s)
unfolding read_word next_place is_kept
read_word-IsPlain [] s h = sym (prepend-nil (read_word bare s))
read_word-IsPlain (c ∷ p) s h =
    rw (h.0.common, h.0.no_quote, h.0.no_backslash, read_word-IsPlain p s h.1)
      (prepend-cons c p (read_word bare s))

-- An assignment of a plain name is one word for the shell, with the value just as it was.
pub read_word-assignment :
    (name value : Bytes)
    → All IsPlain name
    → read_word bare (assignment name value) ≡ some (name ++ (b'=' ∷ value))
unfolding read_word next_place is_kept is_special contains_byte
read_word-assignment name value h =
    read_word-IsPlain name (b'=' ∷ shell_escape value) h
    ∙ ap (λ o. prepend name (prepend (b'=' ∷ []) o)) (escaped_alone value)

-- What tmux is told to run is the shell, `-lic` and one word, which the shell reads as the inner
-- command line, whatever the task, the role and the environment hold.
pub spawn_payload-read_word :
    (shell : Bytes) (se : SpawnEnv) (environ : List Bytes)
    → (w : Bytes) × (spawn_payload shell se environ
        ≡ (if is_empty shell then codes "/bin/sh" else shell) ++ (codes " -lic " ++ w))
      × (read_word bare w ≡ some (inner se environ))
unfolding spawn_payload
spawn_payload-read_word shell se environ =
    (shell_escape (inner se environ), refl, escaped_alone (inner se environ))
