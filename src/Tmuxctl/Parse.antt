-- ===== src/Tmuxctl/Parse.antt =====
-- internal/tmuxctl/parse.go.
pub mod RoundTrip
use mure.Base.{
  Bool, true, false, List, [], ◌∷◌, Option, none, some, Bytes, codes, equal, if◌then◌else◌,
}
use mure.Base.Strings.{has_prefix, cut, split_n}

pub data EventKind : Type 0 where
  unknown begin end error window_add window_close : EventKind
  session_window_changed layout_change output : EventKind

pub record Event : Type 0 where
  pub kind : EventKind
  pub time : Bytes
  pub number : Bytes
  pub flags : Bytes
  pub window_id : Bytes
  pub pane_id : Bytes
  pub session_id : Bytes
  pub layout : Bytes
  pub text : Bytes
  pub raw : Bytes

-- An event with every field but `Raw` at its zero value.
abbrev pub blank : Bytes → Event
blank raw = record {
  kind = unknown;
  time = [];
  number = [];
  flags = [];
  window_id = [];
  pane_id = [];
  session_id = [];
  layout = [];
  text = [];
  raw = raw;
}

unfoldable pub is_reply_control : Event → Bool
is_reply_control e = elim e.kind [ begin ↦ true | end ↦ true | error ↦ true | _ ↦ false ]

unfoldable pub first_field : Bytes → Bytes
first_field s = (cut b' ' s).0

-- What `SplitN(tail, " ", 3)` fills in.
abbrev pub with_stamp : Event → List Bytes → Event
with_stamp ev [] = ev
with_stamp ev (t ∷ []) = record ev { time = t }
with_stamp ev (t ∷ n ∷ []) = record ev { time = t; number = n }
with_stamp ev (t ∷ n ∷ f ∷ rest) = record ev { time = t; number = n; flags = f }

-- The first two pieces of `SplitN(tail, " ", 2)`.
abbrev pub piece₀ : List Bytes → Bytes
piece₀ [] = []
piece₀ (p ∷ ps) = p

abbrev pub piece₁ : List Bytes → Bytes
piece₁ [] = []
piece₁ (p ∷ []) = []
piece₁ (p ∷ q ∷ ps) = q

abbrev pub or_nothing : Option Bytes → Bytes
or_nothing none = []
or_nothing (some s) = s

-- The switch over the word behind `%`.
unfoldable pub parse_head : Bytes → Bytes → Event → Event
unfolding first_field
parse_head head tail ev =
    let stamped = with_stamp ev (split_n b' ' 3 tail) in
    let parts = split_n b' ' 2 tail in
    if equal head (codes "begin")
    then record stamped { kind = begin }
    else if equal head (codes "end")
    then record stamped { kind = end }
    else if equal head (codes "error")
    then record stamped { kind = error }
    else if equal head (codes "window-add")
    then record ev { kind = window_add; window_id = first_field tail }
    else if equal head (codes "window-close")
    then record ev { kind = window_close; window_id = first_field tail }
    else if equal head (codes "session-window-changed")
    then record ev {
      kind = session_window_changed;
      session_id = piece₀ parts;
      window_id = piece₁ parts;
    }
    else if equal head (codes "layout-change")
    then record ev { kind = layout_change; window_id = piece₀ parts; layout = piece₁ parts }
    else if equal head (codes "output")
    then record ev { kind = output; pane_id = piece₀ parts; text = piece₁ parts }
    else ev

-- `line[1:]` split at its first space.
unfoldable pub parse_rest : Bytes → Bytes × Option Bytes → Event
unfolding parse_head
parse_rest line (head, tail) = parse_head head (or_nothing tail) (blank line)

unfoldable pub parse_line : Bytes → Option Event
unfolding parse_rest has_prefix
parse_line [] = none
parse_line (c ∷ rest) =
    if has_prefix (codes "%") (c ∷ rest) then some (parse_rest (c ∷ rest) (cut b' ' rest)) else none
