-- ===== src/Harnesses/Plan.antt =====
-- internal/harnesses/plan.go: from a manifest to the files to write.
pub mod Expansion
pub mod Merges
use mure.Base.{
  ℕ, suc, zero, ◌+◌, ◌-◌, ◌*◌, Bool, true, false, not, ◌&&◌, ◌||◌, List, [], ◌∷◌, ◌++◌, Option,
  none, some, Bytes, codes, equal, is_empty, ◌==◌, ltb, leb, if◌then◌else◌, length, take, drop,
}
use mure.Base.Strings.{has_prefix, cut}
use mure.Harnesses.Markers.{word_length}
use mure.Harnesses.Manifest.{Manifest, Skill, File}
use mure.Harnesses.Install.{FileOp}

-- `os.LookupEnv`, `os.UserHomeDir`, `path.Join` of two, and `fs.ReadFile` of the harnesses' tree.
pub record Host : Type 0 where
  pub lookup_env : Bytes → Option Bytes
  pub home : Option Bytes
  pub path_join : Bytes → Bytes → Bytes
  pub read : Bytes → Option Bytes

-- The text before the first `:-` and, if there is one, the text behind it.
unfoldable pub cut_default : Bytes → Bytes × Option Bytes
cut_default [] = ([], none)
cut_default (c ∷ s) =
    let (before, behind) = cut_default s in
    if has_prefix (codes ":-") (c ∷ s) then ([], some (drop 1 s)) else (c ∷ before, behind)

-- What one turn of the loop writes, the default that it expands, and the rest of the text.
pub record Piece : Type 0 where
  pub text : Bytes
  pub default : Bytes
  pub rest : Bytes

abbrev pub or_empty : Option Bytes → Bytes
or_empty none = []
or_empty (some v) = v

-- A variable with a value, or its default.
abbrev pub braced_value : Option Bytes → Option Bytes → Bytes → Piece
braced_value v default rest =
    if is_empty (or_empty v)
    then record { text = []; default = or_empty default; rest = rest }
    else record { text = or_empty v; default = []; rest = rest }

-- Behind `${`.
abbrev pub braced : (Bytes → Option Bytes) → Bytes → Bytes × Option Bytes → Piece
braced env s (expr, none) = record { text = codes "$"; default = []; rest = b'{' ∷ s }
braced env s (expr, some rest) = braced_value (env (cut_default expr).0) (cut_default expr).1 rest

-- Behind a `$` with no brace.
unfoldable pub bare : (Bytes → Option Bytes) → Bytes → Piece
unfolding word_length
bare env s =
    let n = word_length s in
    if n == 0
    then record { text = codes "$"; default = []; rest = s }
    else record { text = or_empty (env (take n s)); default = []; rest = drop n s }

unfoldable pub variable : (Bytes → Option Bytes) → Bytes → Piece
unfolding bare cut_default
variable env [] = bare env []
variable env (c ∷ s) = if c == b'{' then braced env s (cut b'}' s) else bare env (c ∷ s)

unfoldable pub next_piece : (Bytes → Option Bytes) → ℕ → Bytes → Piece
unfolding variable
next_piece env c s =
    if not (c == b'$') then record { text = c ∷ []; default = []; rest = s } else variable env s

abbrev pub joined : Bytes → Option Bytes → Option Bytes → Option Bytes
joined text (some def) (some rest) = some (text ++ (def ++ rest))
joined text _ _ = none

-- `expandEnvDefaults`; nothing is out of fuel.
unfoldable pub expand_env : ℕ → (Bytes → Option Bytes) → Bytes → Option Bytes
unfolding next_piece
expand_env fuel env [] = some []
expand_env zero env (c ∷ s) = none
expand_env (suc fuel) env (c ∷ s) =
    let p = next_piece env c s in
    joined p.text (expand_env fuel env p.default) (expand_env fuel env p.rest)

unfoldable pub expand_env_defaults : (Bytes → Option Bytes) → Bytes → Bytes
unfolding expand_env
expand_env_defaults env p = or_empty (expand_env (length p) env p)

abbrev pub in_home : Host → Bytes → Option Bytes → Option Bytes
in_home host p none = none
in_home host p (some home) =
    some (if equal p (codes "~") then home else host.path_join home (drop 2 p))

-- The leading `~`.
unfoldable pub expand_home : Host → Bytes → Option Bytes
expand_home host p =
    if equal p (codes "~") || has_prefix (codes "~/") p then in_home host p host.home else some p

unfoldable pub expand_path : Host → Bytes → Option Bytes
unfolding expand_env_defaults expand_home
expand_path host p = expand_home host (expand_env_defaults host.lookup_env p)

-- `strconv.ParseUint` in base 8 with 32 bits, behind the digits that make `n`.
unfoldable pub parse_octal : ℕ → Bytes → Option ℕ
parse_octal n [] = some n
parse_octal n (c ∷ s) =
    let next = n * 8 + (c - b'0') in
    let rest = parse_octal next s in
    if leb b'0' c && leb c b'7' && ltb next 4294967296 then rest else none

unfoldable pub parse_mode : Bytes → Option ℕ
unfolding parse_octal
parse_mode s = if is_empty s then some 420 else parse_octal 0 s

abbrev pub file_op : Option Bytes → Option ℕ → Option Bytes → Bytes → Option FileOp
file_op (some dst) (some mode) (some content) merge =
    some (record { dst = dst; mode = mode; content = content; merge = merge })
file_op _ _ _ merge = none

unfoldable pub skill_op : Host → Manifest → Option FileOp
unfolding expand_path
skill_op host m =
    file_op (expand_path host m.install.skill.path) (some 420)
      (host.read (host.path_join m.name (codes "SKILL.md"))) m.install.skill.merge

unfoldable pub copy_op : Host → Bytes → File → Option FileOp
unfolding expand_path parse_mode
copy_op host name f =
    file_op (expand_path host f.dst) (parse_mode f.mode) (host.read (host.path_join name f.src))
      (codes "replace")

abbrev pub in_front : Option FileOp → Option (List FileOp) → Option (List FileOp)
in_front (some op) (some ops) = some (op ∷ ops)
in_front _ _ = none

-- The loop over the files.
unfoldable pub copy_ops : Host → Bytes → List File → Option (List FileOp)
unfolding copy_op
copy_ops host name [] = some []
copy_ops host name (f ∷ fs) = in_front (copy_op host name f) (copy_ops host name fs)

unfoldable pub build_plan : Host → Manifest → Option (List FileOp)
unfolding skill_op copy_ops
build_plan host m =
    let copies = copy_ops host m.name m.install.files in
    if not (is_empty m.install.skill.path) then in_front (skill_op host m) copies else copies
