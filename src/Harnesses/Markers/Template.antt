-- ===== src/Harnesses/Markers/Template.antt =====
-- A `$` in a block that replaces another.
use mure.Base.{
  ℕ, ◌≡◌, refl, ap, ◌∙◌, true, false, [], ◌∷◌, ◌++◌, Bytes, codes, equal, is_empty, ◌==◌, leb,
  if◌then◌else◌, length, take, take-append, arith, All,
}
use mure.Base.Strings.{Lacks}
use mure.Harnesses.Markers.{
  wrap_block, is_word, word_length, group, reference, expand, replace_or_append_block, marker_begin,
}
use mure.Harnesses.Markers.Block.{has_line}
use mure.Harnesses.Markers.RoundTrip.{
  IsBody, IsOthers, expand-Lacks, expand_plain, matches-middle, replace_all-middle,
}

-- A name as a template reads it, in front of a byte that is none of it, or of nothing.
pub record IsName (name rest : Bytes) : Type 0 where
  pub words : All (λ c. is_word c ≡ true) name
  pub ends : word_length rest ≡ 0
  pub not_empty : is_empty name ≡ false
  pub not_the_match : equal name (codes "0") ≡ false

word_length-name :
    (name rest : Bytes)
    → All (λ c. is_word c ≡ true) name
    → word_length rest ≡ 0
    → word_length (name ++ rest) ≡ length name
unfolding word_length
word_length-name [] rest w e = e
word_length-name (c ∷ name) rest w e = rw (w.0, word_length-name name rest w.1 e) (omega arith)

expand-skip : (m p s : Bytes) → expand m (length p) (p ++ s) ≡ expand m 0 s
unfolding expand
expand-skip m [] s = refl
expand-skip m (c ∷ p) s = expand-skip m p s

is_word-plain : (c : ℕ) → is_word c ≡ true → ((c == b'$') ≡ false) × ((c == b'{') ≡ false)
is_word-plain c w = ground arith

taken : Bytes → ℕ → Bytes → Bytes × ℕ
taken m n s = if leb 1 n then (group m (take n s), n) else (codes "$", 0)

taken-name :
    (m : Bytes) (c : ℕ) (name rest : Bytes)
    → equal (c ∷ name) (codes "0") ≡ false
    → taken m (length (c ∷ name)) ((c ∷ name) ++ rest) ≡ ([], length (c ∷ name))
unfolding taken
taken-name m c name rest z =
    let positive : leb 1 (length (c ∷ name)) ≡ true = ground arith in
    rw (positive, take-append (c ∷ name) rest, z) refl

reference-name :
    (m : Bytes) (c : ℕ) (name rest : Bytes)
    → IsName (c ∷ name) rest
    → reference m ((c ∷ name) ++ rest) ≡ ([], length (c ∷ name))
unfolding reference taken
reference-name m c name rest n =
    let (d, b) = is_word-plain c n.words.0 in
    rw (d, b)
      (ap (λ k. taken m k ((c ∷ name) ++ rest)) (word_length-name (c ∷ name) rest n.words n.ends)
        ∙ taken-name m c name rest n.not_the_match)

expand-name :
    (m name rest : Bytes) → IsName name rest → expand m 0 (b'$' ∷ (name ++ rest)) ≡ expand m 0 rest
unfolding expand
expand-name m [] rest n = absurd (ground (arith, n.not_empty))
expand-name m (c ∷ name) rest n =
    ap (λ r. r.0 ++ expand m r.1 ((c ∷ name) ++ rest)) (reference-name m c name rest n)
    ∙ expand-skip m (c ∷ name) rest

-- Where a file holds the block of a harness between lines with no marker of it, a second block that
-- holds one `$`, with a name other than 0 behind it, is written without the `$` and the name.
pub replace_or_append_block_loses_names :
    (h front body next back p name q : Bytes)
    → Lacks b'\n' h
    → IsOthers h front
    → IsBody h body
    → has_line (marker_begin h) true back ≡ false
    → wrap_block h next ≡ p ++ (b'$' ∷ (name ++ q))
    → Lacks b'$' p
    → Lacks b'$' q
    → IsName name q
    → replace_or_append_block (front ++ (wrap_block h body ++ back)) h next
      ≡ front ++ ((p ++ q) ++ back)
unfolding replace_or_append_block
replace_or_append_block_loses_names h front body next back p name q l o b n e lp lq i =
    let expanded : expand (wrap_block h body) 0 (wrap_block h next) ≡ p ++ q =
      ap (expand (wrap_block h body) 0) e
      ∙ expand-Lacks (wrap_block h body) p (b'$' ∷ (name ++ q)) lp
      ∙ ap (λ r. p ++ r)
          (expand-name (wrap_block h body) name q i ∙ expand_plain (wrap_block h body) q lq) in
    rw (matches-middle h front body back l o b) (
      replace_all-middle h (wrap_block h next) front body back l o b n
      ∙ ap (λ r. front ++ (r ++ back)) expanded)
