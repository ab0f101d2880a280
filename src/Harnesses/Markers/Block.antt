-- ===== src/Harnesses/Markers/Block.antt =====
-- Where the marked block is found, and what replacing and stripping it leave.
use mure.Base.{
  ℕ, suc, ◌≡◌, refl, ap, ◌∙◌, Bool, true, false, ◌&&◌, ◌||◌, [], ◌∷◌, ◌++◌, Option, none, some,
  Bytes, codes, ◌==◌, length, arith, All-append,
}
use mure.Base.Strings.{has_prefix, Lacks}
use mure.Harnesses.Markers.{
  newline, marker_begin, marker_end, ends_in_newline, plus, end_length, match_length, matches,
  replace_all,
}

-- Some line begins with the marker; the flag says whether the text begins a line.
unfoldable pub has_line : Bytes → Bool → Bytes → Bool
has_line marker bol [] = false
has_line marker bol (c ∷ s) =
    let later = has_line marker (c == b'\n') s in bol && has_prefix marker (c ∷ s) || later

-- A prefix of one line is seen within it.
prefix-within :
    (m s t : Bytes)
    → Lacks b'\n' m
    → ends_in_newline s ≡ true
    → has_prefix m s ≡ false
    → has_prefix m (s ++ t) ≡ false
unfolding has_prefix ends_in_newline
prefix-within [] s t l e h = cc
prefix-within (p ∷ m) [] t l e h = cc
prefix-within (p ∷ m) (c ∷ []) t l e h = ground arith
prefix-within (p ∷ m) (c ∷ d ∷ s) t l e h = ground (arith, prefix-within m (d ∷ s) t l.1 e)

prefix-shorter : (m n s : Bytes) → has_prefix m s ≡ false → has_prefix (m ++ n) s ≡ false
unfolding has_prefix
prefix-shorter [] n s h = cc
prefix-shorter (p ∷ m) n [] h = refl
prefix-shorter (p ∷ m) n (c ∷ s) h = ground (arith, prefix-shorter m n s)

pub prefix-append : (m s : Bytes) → has_prefix m (m ++ s) ≡ true
unfolding has_prefix
prefix-append [] s = refl
prefix-append (p ∷ m) s = ground (arith, prefix-append m s)

-- No marker begins at the byte in front of a line's end.
here-none :
    (m : Bytes) (bol : Bool) (s t : Bytes)
    → Lacks b'\n' m
    → ends_in_newline s ≡ true
    → (bol && has_prefix m s) ≡ false
    → (bol && has_prefix m (s ++ t)) ≡ false
here-none m false s t l e h = refl
here-none m true s t l e h = prefix-within m s t l e h

has_line-here :
    (m : Bytes) (bol : Bool) (c : ℕ) (s : Bytes)
    → has_line m bol (c ∷ s) ≡ false
    → ((bol && has_prefix m (c ∷ s)) ≡ false) × (has_line m (c == b'\n') s ≡ false)
unfolding has_line
has_line-here m bol c s h = ground (arith, h)

plus-suc : (n : ℕ) (o : Option ℕ) → plus 1 (plus n o) ≡ plus (suc n) o
plus-suc n none = refl
plus-suc n (some k) = ap some (omega arith)

pub end_length-pass :
    (m : Bytes) (bol : Bool) (s t : Bytes)
    → Lacks b'\n' m
    → has_line m bol s ≡ false
    → ends_in_newline s ≡ true
    → end_length m bol (s ++ t) ≡ plus (length s) (end_length m true t)
unfolding end_length ends_in_newline
end_length-pass m bol [] t l h e = cc
end_length-pass m bol (c ∷ []) t l h e =
    rw (here-none m bol (c ∷ []) t l e (has_line-here m bol c [] h).0, e)
end_length-pass m bol (c ∷ d ∷ s) t l h e =
    let (here, later) = has_line-here m bol c (d ∷ s) h in
    rw (here-none m bol (c ∷ d ∷ s) t l e here) (
      ap (plus 1) (end_length-pass m (c == b'\n') (d ∷ s) t l later e)
      ∙ plus-suc (length (d ∷ s)) (end_length m true t))

pub match_length-none :
    (h : Bytes) (bol : Bool) (s : Bytes)
    → (bol && has_prefix (marker_begin h) s) ≡ false
    → match_length h bol s ≡ none
unfolding match_length
match_length-none h false s e = refl
match_length-none h true s e = rw (prefix-shorter (marker_begin h) newline s e)

marker-Lacks :
    (p q h : Bytes) → Lacks b'\n' p → Lacks b'\n' h → Lacks b'\n' q → Lacks b'\n' (p ++ (h ++ q))
marker-Lacks p q h a b c =
    All-append (λ d. (d == b'\n') ≡ false) p (h ++ q) a
      (All-append (λ d. (d == b'\n') ≡ false) h q b c)

pub marker_begin-Lacks : (h : Bytes) → Lacks b'\n' h → Lacks b'\n' (marker_begin h)
marker_begin-Lacks h l =
    marker-Lacks (codes "# >>> mure:") (codes " >>>") h
      (refl, (refl, (refl, (refl, (refl, (refl, (refl, (refl, (refl, (refl, (refl, tt))))))))))) l
      (refl, (refl, (refl, (refl, tt))))

pub marker_end-Lacks : (h : Bytes) → Lacks b'\n' h → Lacks b'\n' (marker_end h)
marker_end-Lacks h l =
    marker-Lacks (codes "# <<< mure:") (codes " <<<") h
      (refl, (refl, (refl, (refl, (refl, (refl, (refl, (refl, (refl, (refl, (refl, tt))))))))))) l
      (refl, (refl, (refl, (refl, tt))))

-- Text with no begin marker is passed over.
pub replace_all-pass :
    (h template : Bytes) (bol : Bool) (s t : Bytes)
    → Lacks b'\n' h
    → has_line (marker_begin h) bol s ≡ false
    → ends_in_newline s ≡ true
    → replace_all h template 0 bol (s ++ t) ≡ s ++ replace_all h template 0 true t
unfolding replace_all ends_in_newline
replace_all-pass h template bol [] t l n e = cc
replace_all-pass h template bol (c ∷ []) t l n e =
    let m = marker_begin-Lacks h l in
    rw (
      match_length-none h bol (c ∷ t) (
          here-none (marker_begin h) bol (c ∷ []) t m e
            (has_line-here (marker_begin h) bol c [] n).0),
      e,
    )
replace_all-pass h template bol (c ∷ d ∷ s) t l n e =
    let m = marker_begin-Lacks h l in
    let (here, later) = has_line-here (marker_begin h) bol c (d ∷ s) n in
    rw
      (match_length-none h bol (c ∷ d ∷ (s ++ t))
        (here-none (marker_begin h) bol (c ∷ d ∷ s) t m e here))
      (ap (◌∷◌ c) (replace_all-pass h template (c == b'\n') (d ∷ s) t l later e))

pub replace_all-rest :
    (h template : Bytes) (bol : Bool) (s : Bytes)
    → has_line (marker_begin h) bol s ≡ false
    → replace_all h template 0 bol s ≡ s
unfolding replace_all
replace_all-rest h template bol [] n = refl
replace_all-rest h template bol (c ∷ s) n =
    let (here, later) = has_line-here (marker_begin h) bol c s n in
    rw (match_length-none h bol (c ∷ s) here)
      (ap (◌∷◌ c) (replace_all-rest h template (c == b'\n') s later))

pub matches-none :
    (h : Bytes) (bol : Bool) (s : Bytes)
    → has_line (marker_begin h) bol s ≡ false
    → matches h bol s ≡ false
unfolding matches
matches-none h bol [] n = refl
matches-none h bol (c ∷ s) n =
    let (here, later) = has_line-here (marker_begin h) bol c s n in
    rw (match_length-none h bol (c ∷ s) here) (matches-none h (c == b'\n') s later)

pub replace_all-skip :
    (h template : Bytes) (bol : Bool) (s t : Bytes)
    → ends_in_newline s ≡ true
    → replace_all h template (length s) bol (s ++ t) ≡ replace_all h template 0 true t
unfolding replace_all ends_in_newline
replace_all-skip h template bol [] t e = cc
replace_all-skip h template bol (c ∷ []) t e = rw e
replace_all-skip h template bol (c ∷ d ∷ s) t e =
    replace_all-skip h template (c == b'\n') (d ∷ s) t e
