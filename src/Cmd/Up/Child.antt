-- ===== src/Cmd/Up/Child.antt =====
-- The session and the socket in the environment of the forked daemon.
use mure.Base.{
  ◌≡◌, refl, ap, ◌∙◌, Bool, true, false, List, [], ◌∷◌, ◌++◌, Option, none, some, Bytes, codes,
  is_empty, if◌then◌else◌, if_ind, arith, Bool-cases, inl, inr,
}
use mure.Base.Strings.{cut}
use mure.Cmd.Up.{
  Process, System, tmux_args, tmux_cmd, session_args, or_default, resolve_session, trimmed,
  Variable, daemon, launch_dir, tmux_socket, session, set_all, unless_empty, env_extra,
  child_process,
}

-- The session's name after the assignments.
held : List (Variable × Bytes) → Bytes → Bytes
held [] s = s
held ((session, v) ∷ xs) s = held xs v
held ((_, v) ∷ xs) s = held xs s

set_all-session :
    (xs : List (Variable × Bytes)) (p : Process)
    → (set_all xs p).mure_session ≡ held xs p.mure_session
unfolding held
set_all-session [] p = refl
set_all-session ((session, v) ∷ xs) p = set_all-session xs _
set_all-session ((daemon, v) ∷ xs) p = set_all-session xs _
set_all-session ((launch_dir, v) ∷ xs) p = set_all-session xs _
set_all-session ((tmux_socket, v) ∷ xs) p = set_all-session xs _

set_all-socket :
    (xs : List (Variable × Bytes)) (p : Process) → (set_all xs p).mure_socket ≡ p.mure_socket
set_all-socket [] p = refl
set_all-socket ((session, v) ∷ xs) p = set_all-socket xs _
set_all-socket ((daemon, v) ∷ xs) p = set_all-socket xs _
set_all-socket ((launch_dir, v) ∷ xs) p = set_all-socket xs _
set_all-socket ((tmux_socket, v) ∷ xs) p = set_all-socket xs _

held-append :
    (xs ys : List (Variable × Bytes)) (s : Bytes) → held (xs ++ ys) s ≡ held ys (held xs s)
unfolding held
held-append [] ys s = refl
held-append ((session, v) ∷ xs) ys s = held-append xs ys v
held-append ((daemon, v) ∷ xs) ys s = held-append xs ys s
held-append ((launch_dir, v) ∷ xs) ys s = held-append xs ys s
held-append ((tmux_socket, v) ∷ xs) ys s = held-append xs ys s

held-launch_dir : (o : Option Bytes) (s : Bytes) → held (unless_empty launch_dir o) s ≡ s
unfolding held
held-launch_dir none s = refl
held-launch_dir (some v) s = ground arith

held-tmux_socket : (o : Option Bytes) (s : Bytes) → held (unless_empty tmux_socket o) s ≡ s
unfolding held
held-tmux_socket none s = refl
held-tmux_socket (some v) s = ground arith

abbrev pub daemon_session : Bytes → Bytes
daemon_session s = if is_empty s then codes "default" else s

held-session :
    (o : Option Bytes) (s : Bytes)
    → is_empty s ≡ true
    → daemon_session (held (unless_empty session (trimmed o)) s) ≡ or_default o
unfolding held
held-session none s e = rw e
held-session (some v) s e = ground arith

held_if :
    (b : Bool) (xs : List (Variable × Bytes)) (s : Bytes)
    → held xs s ≡ s
    → held (if b then xs else []) s ≡ s
unfolding held
held_if b xs s e = if_ind (λ ys. held ys s ≡ s) b xs [] (λ _. e) (λ _. refl)

held-append_idle :
    (xs ys : List (Variable × Bytes)) (s : Bytes) → held xs s ≡ s → held (xs ++ ys) s ≡ held ys s
held-append_idle xs ys s e = held-append xs ys s ∙ ap (held ys) e

-- The assignments that are for a process inside tmux.
socket_part : Process → List (Variable × Bytes)
socket_part p =
    if is_empty p.mure_tmux_socket
    then unless_empty tmux_socket (some (cut b',' p.tmux_variable).0)
    else []

session_part : System → Process → List (Variable × Bytes)
session_part sys p =
    if is_empty p.mure_session then unless_empty session (tmux_cmd sys p session_args) else []

from_tmux : System → Process → List (Variable × Bytes)
from_tmux sys p = if is_empty p.tmux_variable then [] else socket_part p ++ session_part sys p

held_named :
    (p : Process)
    → is_empty p.mure_session ≡ false
    → daemon_session (held [] p.mure_session) ≡ p.mure_session
unfolding held
held_named p named = rw named

held-session_part :
    (sys : System) (p : Process)
    → is_empty p.tmux_variable ≡ false
    → daemon_session (held (session_part sys p) p.mure_session) ≡ resolve_session sys p
unfolding session_part resolve_session tmux_cmd
held-session_part sys p inside = elim (Bool-cases (is_empty p.mure_session)) [
  | inl unset ↦
      rw (unset, inside) (held-session (sys.tmux (tmux_args p session_args)) p.mure_session unset)
  | inr named ↦ rw named (held_named p named)
]

held-socket_part : (p : Process) → held (socket_part p) p.mure_session ≡ p.mure_session
unfolding socket_part
held-socket_part p =
    let found = some (cut b',' p.tmux_variable).0 in
    held_if (is_empty p.mure_tmux_socket) (unless_empty tmux_socket found) p.mure_session
      (held-tmux_socket found p.mure_session)

held_outside :
    (sys : System) (p : Process)
    → is_empty p.tmux_variable ≡ true
    → daemon_session (held [] p.mure_session) ≡ resolve_session sys p
unfolding held resolve_session
held_outside sys p outside = ground arith

held-from_tmux :
    (sys : System) (p : Process)
    → daemon_session (held (from_tmux sys p) p.mure_session) ≡ resolve_session sys p
unfolding from_tmux
held-from_tmux sys p = elim (Bool-cases (is_empty p.tmux_variable)) [
  | inl outside ↦ rw outside (held_outside sys p outside)
  | inr inside ↦ rw inside (
      ap daemon_session
        (held-append_idle (socket_part p) (session_part sys p) p.mure_session (held-socket_part p))
      ∙ held-session_part sys p inside)
]

pub child-session :
    (sys : System) (p : Process) (cwd : Option Bytes)
    → daemon_session (child_process sys p cwd).mure_session ≡ resolve_session sys p
unfolding child_process env_extra held from_tmux socket_part session_part
child-session sys p cwd =
    ap daemon_session (
      set_all-session (env_extra sys p cwd) p
      ∙ held-append_idle (if is_empty p.mure_launch_dir then unless_empty launch_dir cwd else [])
          (from_tmux sys p) p.mure_session
          (held_if (is_empty p.mure_launch_dir) (unless_empty launch_dir cwd) p.mure_session
            (held-launch_dir cwd p.mure_session)))
    ∙ held-from_tmux sys p

pub child-socket :
    (sys : System) (p : Process) (cwd : Option Bytes)
    → (child_process sys p cwd).mure_socket ≡ p.mure_socket
unfolding child_process
child-socket sys p cwd = set_all-socket (env_extra sys p cwd) p
