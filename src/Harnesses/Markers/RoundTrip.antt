-- ===== src/Harnesses/Markers/RoundTrip.antt =====
-- A block that was put into a file, replaced, and stripped.
use mure.Base.{
  ℕ, ◌+◌, ◌-◌, ◌≡◌, refl, sym, ap, ◌∙◌, Bool, true, false, ◌||◌, [], ◌∷◌, ◌++◌, append-nil,
  append_assoc, some, Bytes, is_empty, ◌==◌, if◌then◌else◌, Bool-cases, inl, inr, length,
  length-append, take, drop, take-append, drop-append, arith,
}
use mure.Base.Strings.{has_prefix, Lacks}
use mure.Harnesses.Markers.{
  newline, marker_begin, marker_end, trim_newlines, ends_in_newline, wrap_block, end_length,
  match_length, matches, is_match, expand, replace_all, replace_or_append_block, strip_block,
}
use mure.Harnesses.Markers.Block.{
  has_line, prefix-append, end_length-pass, replace_all-pass, replace_all-rest, matches-none,
  replace_all-skip, marker_end-Lacks, marker_begin-Lacks,
}

-- The body of a block, as the block holds it, has no line that begins with the end marker.
abbrev pub IsBody : Bytes → Bytes → Type 0
IsBody h body = has_line (marker_end h) true (trim_newlines body ++ newline) ≡ false

-- What a block has behind its first byte.
block_tail : Bytes → Bytes → Bytes
block_tail h body = drop 1 (wrap_block h body)

ends-append : (s : Bytes) → ends_in_newline (s ++ newline) ≡ true
unfolding ends_in_newline
ends-append [] = refl
ends-append (c ∷ []) = refl
ends-append (c ∷ d ∷ s) = ends-append (d ∷ s)

end_length-marker :
    (h t : Bytes)
    → end_length (marker_end h) true (marker_end h ++ (newline ++ t))
      ≡ some (length (marker_end h) + 1)
unfolding end_length
end_length-marker h t =
    rw (prefix-append (marker_end h) (newline ++ t), drop-append (marker_end h) (newline ++ t)) refl

-- The text of a block in front of `t`, as its parts.
block-parts :
    (h body t : Bytes)
    → wrap_block h body ++ t
      ≡ (marker_begin h ++ newline)
        ++ ((trim_newlines body ++ newline) ++ (marker_end h ++ (newline ++ t)))
unfolding wrap_block
block-parts h body t = simp append_assoc

length-block :
    (h body : Bytes)
    → length (wrap_block h body)
      ≡ length (marker_begin h ++ newline)
        + (length (trim_newlines body ++ newline) + (length (marker_end h) + 1))
unfolding wrap_block
length-block h body = grind (arith, length-append)

match_length-block :
    (h body t : Bytes)
    → Lacks b'\n' h
    → IsBody h body
    → match_length h true (wrap_block h body ++ t) ≡ some (length (wrap_block h body))
unfolding match_length
match_length-block h body t l b =
    let opening = marker_begin h ++ newline in
    let rest = (trim_newlines body ++ newline) ++ (marker_end h ++ (newline ++ t)) in
    ap (match_length h true) (block-parts h body t)
    ∙ rw
        (
          prefix-append opening rest,
          drop-append opening rest,
          end_length-pass (marker_end h) true (trim_newlines body ++ newline)
              (marker_end h ++ (newline ++ t)) (marker_end-Lacks h l) b
              (ends-append (trim_newlines body)),
          end_length-marker h t,
        )
        (ap some (sym (length-block h body)))

block_tail-ends : (h body : Bytes) → ends_in_newline (block_tail h body) ≡ true
unfolding block_tail wrap_block
block_tail-ends h body =
    let front =
      drop 1 (marker_begin h) ++ (newline ++ (trim_newlines body ++ (newline ++ marker_end h))) in
    let e : block_tail h body ≡ front ++ newline = simp append_assoc in
    ap ends_in_newline e ∙ ends-append front

replace_all-match :
    (h template : Bytes) (c : ℕ) (s : Bytes) (n : ℕ)
    → match_length h true (c ∷ s) ≡ some n
    → replace_all h template 0 true (c ∷ s)
      ≡ expand (take n (c ∷ s)) 0 template ++ replace_all h template (n - 1) (c == b'\n') s
unfolding replace_all
replace_all-match h template c s n e = rw e

-- A block is replaced by what the template expands to.
replace_all-block :
    (h template body t : Bytes)
    → Lacks b'\n' h
    → IsBody h body
    → replace_all h template 0 true (wrap_block h body ++ t)
      ≡ expand (wrap_block h body) 0 template ++ replace_all h template 0 true t
unfolding wrap_block block_tail
replace_all-block h template body t l b =
    let w = block_tail h body in
    let n : length (wrap_block h body) - 1 ≡ length w = omega arith in
    replace_all-match h template b'#' (w ++ t) (length (wrap_block h body))
      (match_length-block h body t l b)
    ∙ ap
        (λ m.
          expand m 0 template
          ++ replace_all h template (length (wrap_block h body) - 1) false (w ++ t))
        (take-append (wrap_block h body) t)
    ∙ ap (λ k. expand (wrap_block h body) 0 template ++ replace_all h template k false (w ++ t)) n
    ∙ ap (λ r. expand (wrap_block h body) 0 template ++ r)
        (replace_all-skip h template false w t (block_tail-ends h body))

-- A file of the user: it is empty or ends in a newline, and no line of it begins a block.
pub record IsOthers (h : Bytes) (s : Bytes) : Type 0 where
  pub no_marker : has_line (marker_begin h) true s ≡ false
  pub whole_lines : (is_empty s || ends_in_newline s) ≡ true

replace_all-others :
    (h template s t : Bytes)
    → Lacks b'\n' h
    → IsOthers h s
    → replace_all h template 0 true (s ++ t) ≡ s ++ replace_all h template 0 true t
replace_all-others h template [] t l o = refl
replace_all-others h template (c ∷ s) t l o =
    replace_all-pass h template true (c ∷ s) t l o.no_marker o.whole_lines

-- Whatever the file holds in front and behind, `ReplaceAllString` puts the expanded template in
-- the block's place.
pub replace_all-middle :
    (h template front body back : Bytes)
    → Lacks b'\n' h
    → IsOthers h front
    → IsBody h body
    → has_line (marker_begin h) true back ≡ false
    → replace_all h template 0 true (front ++ (wrap_block h body ++ back))
      ≡ front ++ (expand (wrap_block h body) 0 template ++ back)
replace_all-middle h template front body back l o b n =
    replace_all-others h template front (wrap_block h body ++ back) l o
    ∙ ap (λ r. front ++ r) (replace_all-block h template body back l b)
    ∙ ap (λ r. front ++ (expand (wrap_block h body) 0 template ++ r))
        (replace_all-rest h template true back n)

pub expand-Lacks : (m p s : Bytes) → Lacks b'$' p → expand m 0 (p ++ s) ≡ p ++ expand m 0 s
unfolding expand
expand-Lacks m [] s l = refl
expand-Lacks m (c ∷ p) s l = rw l.0 (ap (◌∷◌ c) (expand-Lacks m p s l.1))

pub expand_plain : (m p : Bytes) → Lacks b'$' p → expand m 0 p ≡ p
unfolding expand
expand_plain m p l = ap (expand m 0) (sym (append-nil p)) ∙ expand-Lacks m p [] l ∙ append-nil p

or-true : (b : Bool) → (b || true) ≡ true
or-true true = refl
or-true false = refl

matches-later :
    (h : Bytes) (bol : Bool) (s t : Bytes)
    → ends_in_newline s ≡ true
    → matches h true t ≡ true
    → matches h bol (s ++ t) ≡ true
unfolding matches ends_in_newline
matches-later h bol [] t e m = cc
matches-later h bol (c ∷ []) t e m = rw (e, m, or-true (is_match (match_length h bol (c ∷ t))))
matches-later h bol (c ∷ d ∷ s) t e m =
    rw (matches-later h (c == b'\n') (d ∷ s) t e m)
      (or-true (is_match (match_length h bol (c ∷ d ∷ (s ++ t)))))

matches-block :
    (h body t : Bytes)
    → Lacks b'\n' h
    → IsBody h body
    → matches h true (wrap_block h body ++ t) ≡ true
unfolding matches wrap_block
matches-block h body t l b = rw (match_length-block h body t l b)

-- A match begins where the block does.
pub matches-middle :
    (h front body back : Bytes)
    → Lacks b'\n' h
    → IsOthers h front
    → IsBody h body
    → matches h true (front ++ (wrap_block h body ++ back)) ≡ true
matches-middle h [] body back l o b = matches-block h body back l b
matches-middle h (c ∷ front) body back l o b =
    matches-later h true (c ∷ front) (wrap_block h body ++ back) o.whole_lines
      (matches-block h body back l b)

-- Stripping takes out a block and leaves what is in front of it and behind it.
pub strip_block-middle :
    (h front body back : Bytes)
    → Lacks b'\n' h
    → IsOthers h front
    → IsBody h body
    → has_line (marker_begin h) true back ≡ false
    → strip_block (front ++ (wrap_block h body ++ back)) h ≡ front ++ back
unfolding strip_block expand
strip_block-middle h front body back l o b n = replace_all-middle h [] front body back l o b n

-- A second block takes the place of the first one, where it has no `$`.
pub replace_or_append_block-middle :
    (h front body next back : Bytes)
    → Lacks b'\n' h
    → IsOthers h front
    → IsBody h body
    → has_line (marker_begin h) true back ≡ false
    → Lacks b'$' (wrap_block h next)
    → replace_or_append_block (front ++ (wrap_block h body ++ back)) h next
      ≡ front ++ (wrap_block h next ++ back)
unfolding replace_or_append_block
replace_or_append_block-middle h front body next back l o b n d =
    rw (matches-middle h front body back l o b) (
      replace_all-middle h (wrap_block h next) front body back l o b n
      ∙ ap (λ r. front ++ (r ++ back)) (expand_plain (wrap_block h body) (wrap_block h next) d))

prefix-newline :
    (m s : Bytes) → Lacks b'\n' m → has_prefix m s ≡ false → has_prefix m (s ++ newline) ≡ false
unfolding has_prefix
prefix-newline [] s l h = cc
prefix-newline (p ∷ m) [] l h = ground (arith, l.0)
prefix-newline (p ∷ m) (c ∷ s) l h = ground (arith, prefix-newline m s l.1)

has_line-newline :
    (p : ℕ) (m : Bytes) (bol : Bool) (s : Bytes)
    → Lacks b'\n' (p ∷ m)
    → has_line (p ∷ m) bol s ≡ false
    → has_line (p ∷ m) bol (s ++ newline) ≡ false
unfolding has_line has_prefix
has_line-newline p m bol [] l h = ground (arith, l.0)
has_line-newline p m false (c ∷ s) l h = has_line-newline p m (c == b'\n') s l h
has_line-newline p m true (c ∷ s) l h =
    ground (arith, prefix-newline m s l.1, has_line-newline p m (c == b'\n') s l)

strip_block-append :
    (h front body : Bytes)
    → Lacks b'\n' h
    → IsOthers h front
    → IsBody h body
    → strip_block (front ++ wrap_block h body) h ≡ front
unfolding has_line
strip_block-append h front body l o b =
    ap (λ t. strip_block (front ++ t) h) (sym (append-nil (wrap_block h body)))
    ∙ strip_block-middle h front body [] l o b refl
    ∙ append-nil front

-- Let the harness's name have no newline, no line of a file begin with its begin marker, and no line
-- of the body with its end marker. Putting the block into the file and stripping it gives the file
-- back, with the newline that its last line may have lacked.
pub strip_block-replace_or_append_block :
    (h existing body : Bytes)
    → Lacks b'\n' h
    → has_line (marker_begin h) true existing ≡ false
    → IsBody h body
    → strip_block (replace_or_append_block existing h body) h
      ≡ (if is_empty existing || ends_in_newline existing then existing else existing ++ newline)
unfolding replace_or_append_block strip_block
strip_block-replace_or_append_block h [] body l n b =
    rw (matches-none h true [] n)
      (strip_block-append h [] body l (record { no_marker = n; whole_lines = refl }) b)
strip_block-replace_or_append_block h (c ∷ s) body l n b =
    rw (matches-none h true (c ∷ s) n) (elim (Bool-cases (ends_in_newline (c ∷ s))) [
      | inl e ↦
          rw e (strip_block-append h (c ∷ s) body l (record { no_marker = n; whole_lines = e }) b)
      | inr e ↦ rw e (
          strip_block-append h ((c ∷ s) ++ newline) body l
            (record {
              no_marker =
                  has_line-newline b'#' (drop 1 (marker_begin h)) true (c ∷ s)
                    (marker_begin-Lacks h l) n;
              whole_lines = ends-append (c ∷ s);
            })
            b)
    ])
