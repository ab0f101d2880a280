-- ===== src/Tmuxctl/Parse/RoundTrip.antt =====
-- The lines that tmux writes, and what `ParseLine` makes of them.
use mure.Base.{ℕ, ◌≡◌, refl, [], ◌∷◌, ◌++◌, some, Bytes, codes, equal}
use mure.Base.Strings.{cut, split_n, split_n-append, Lacks}
use mure.Tmuxctl.Parse.{
  begin, end, error, window_add, window_close, session_window_changed, layout_change, output, Event,
  blank, parse_line,
}

-- The control-mode lines that the client knows, with their arguments.
pub data Message : Type 0 where
  begins ends errors : Bytes → Bytes → Bytes → Message
  adds_window closes_window : Bytes → Message
  changes_window changes_layout outputs : Bytes → Bytes → Message

infixr 66 ◌␣◌
abbrev pub ◌␣◌ : Bytes → Bytes → Bytes
a ␣ b = a ++ (b' ' ∷ b)

-- The line that tmux writes.
abbrev pub render : Message → Bytes
render (begins t n f) = codes "%begin" ␣ t ␣ n ␣ f
render (ends t n f) = codes "%end" ␣ t ␣ n ␣ f
render (errors t n f) = codes "%error" ␣ t ␣ n ␣ f
render (adds_window w) = codes "%window-add" ␣ w
render (closes_window w) = codes "%window-close" ␣ w
render (changes_window s w) = codes "%session-window-changed" ␣ s ␣ w
render (changes_layout w l) = codes "%layout-change" ␣ w ␣ l
render (outputs p o) = codes "%output" ␣ p ␣ o

-- The event that stands for it.
abbrev pub event_of : Message → Event
event_of (begins t n f) = record (blank (render (begins t n f))) {
  kind = begin;
  time = t;
  number = n;
  flags = f;
}
event_of (ends t n f) = record (blank (render (ends t n f))) {
  kind = end;
  time = t;
  number = n;
  flags = f;
}
event_of (errors t n f) = record (blank (render (errors t n f))) {
  kind = error;
  time = t;
  number = n;
  flags = f;
}
event_of (adds_window w) = record (blank (render (adds_window w))) {
  kind = window_add;
  window_id = w;
}
event_of (closes_window w) = record (blank (render (closes_window w))) {
  kind = window_close;
  window_id = w;
}
event_of (changes_window s w) = record (blank (render (changes_window s w))) {
  kind = session_window_changed;
  session_id = s;
  window_id = w;
}
event_of (changes_layout w l) = record (blank (render (changes_layout w l))) {
  kind = layout_change;
  window_id = w;
  layout = l;
}
event_of (outputs p o) = record (blank (render (outputs p o))) {
  kind = output;
  pane_id = p;
  text = o;
}

-- All arguments but the last are single words; the last of `window-add` and `window-close` too.
abbrev pub IsWellFormed : Message → Type 0
IsWellFormed (begins t n f) = Lacks b' ' t × Lacks b' ' n
IsWellFormed (ends t n f) = Lacks b' ' t × Lacks b' ' n
IsWellFormed (errors t n f) = Lacks b' ' t × Lacks b' ' n
IsWellFormed (adds_window w) = Lacks b' ' w
IsWellFormed (closes_window w) = Lacks b' ' w
IsWellFormed (changes_window s w) = Lacks b' ' s
IsWellFormed (changes_layout w l) = Lacks b' ' w
IsWellFormed (outputs p o) = Lacks b' ' p

split_two : (p s : Bytes) → Lacks b' ' p → split_n b' ' 2 (p ␣ s) ≡ p ∷ s ∷ []
unfolding split_n
split_two p s h = split_n-append b' ' 0 p s h

split_three :
    (t n f : Bytes) → Lacks b' ' t → Lacks b' ' n → split_n b' ' 3 (t ␣ n ␣ f) ≡ t ∷ n ∷ f ∷ []
split_three t n f ht hn = rw (split_n-append b' ' 1 t (n ␣ f) ht, split_two n f hn)

cut-Lacks : (sep : ℕ) (p : Bytes) → Lacks sep p → (cut sep p).0 ≡ p
unfolding cut
cut-Lacks sep [] h = refl
cut-Lacks sep (c ∷ p) h = rw (h.0, cut-Lacks sep p h.1)

-- Every well-formed line is read as the event that it stands for.
pub parse_line-render : (m : Message) → IsWellFormed m → parse_line (render m) ≡ some (event_of m)
unfolding parse_line cut equal
parse_line-render (begins t n f) h = rw (split_three t n f h.0 h.1)
parse_line-render (ends t n f) h = rw (split_three t n f h.0 h.1)
parse_line-render (errors t n f) h = rw (split_three t n f h.0 h.1)
parse_line-render (adds_window w) h = rw (cut-Lacks b' ' w h)
parse_line-render (closes_window w) h = rw (cut-Lacks b' ' w h)
parse_line-render (changes_window s w) h = rw (split_two s w h)
parse_line-render (changes_layout w l) h = rw (split_two w l h)
parse_line-render (outputs p o) h = rw (split_two p o h)
