-- ===== src/Cmd/Emit/Arguments.antt =====
-- Where the option may stand among the arguments of `emitStatus`.
use mure.Base.{
  ◌≡◌, ap, sym, ◌∙◌, refl, false, List, [], ◌∷◌, ◌++◌, Option, Bytes, codes, equal, All,
}
use mure.Base.Strings.{has_prefix, trim_prefix-append}
use mure.Cmd.Emit.{Environment, positional, parse_arguments, emit_parsed, emit_status}

-- An argument that is not the option.
pub record IsPlain (a : Bytes) : Type 0 where
  pub no_flag : equal a (codes "--tool") ≡ false
  pub no_value : has_prefix (codes "--tool=") a ≡ false

prepend : List Bytes → Option (List Bytes × Bytes) → Option (List Bytes × Bytes)
prepend [] o = o
prepend (a ∷ pre) o = positional a (prepend pre o)

parse_arguments-plain :
    (pre argv : List Bytes) (tool : Bytes)
    → All IsPlain pre
    → parse_arguments false tool (pre ++ argv) ≡ prepend pre (parse_arguments false tool argv)
unfolding parse_arguments prepend
parse_arguments-plain [] argv tool p = refl
parse_arguments-plain (a ∷ pre) argv tool p =
    rw (p.0.no_flag, p.0.no_value) (ap (positional a) (parse_arguments-plain pre argv tool p.1))

parse_arguments-flag :
    (argv : List Bytes) (tool value : Bytes)
    → parse_arguments false tool (codes "--tool" ∷ value ∷ argv) ≡ parse_arguments false value argv
unfolding parse_arguments equal has_prefix
parse_arguments-flag argv tool value = refl

parse_arguments-value :
    (argv : List Bytes) (tool value : Bytes)
    → parse_arguments false tool ((codes "--tool=" ++ value) ∷ argv)
      ≡ parse_arguments false value argv
unfolding parse_arguments equal has_prefix
parse_arguments-value argv tool value =
    ap (λ t. parse_arguments false t argv) (trim_prefix-append (codes "--tool=") value)

-- Behind arguments that are not the option, `--tool value` means what `--tool=value` means there,
-- and what `--tool value` means in front of them, whatever arguments follow.
pub emit_status-tool :
    (env : Environment) (pre argv : List Bytes) (value : Bytes)
    → All IsPlain pre
    → (emit_status env (pre ++ (codes "--tool" ∷ value ∷ argv))
        ≡ emit_status env (pre ++ ((codes "--tool=" ++ value) ∷ argv)))
      × (emit_status env (pre ++ (codes "--tool" ∷ value ∷ argv))
          ≡ emit_status env (codes "--tool" ∷ value ∷ (pre ++ argv)))
unfolding emit_status
emit_status-tool env pre argv value p =
    let behind =
      parse_arguments-plain pre (codes "--tool" ∷ value ∷ argv) [] p
      ∙ ap (prepend pre) (parse_arguments-flag argv [] value) in
    let assigned =
      parse_arguments-plain pre ((codes "--tool=" ++ value) ∷ argv) [] p
      ∙ ap (prepend pre) (parse_arguments-value argv [] value) in
    let front =
      parse_arguments-flag (pre ++ argv) [] value ∙ parse_arguments-plain pre argv value p in
    (ap (emit_parsed env) (behind ∙ sym assigned), ap (emit_parsed env) (behind ∙ sym front))
