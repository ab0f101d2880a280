-- ===== src/Daemon/Lifecycle/Start.antt =====
-- A daemon that starts with no other at work.
use mure.Base.{
  ℕ, ◌<◌, ◌≤◌, ◌≡◌, refl, ap, ◌∙◌, Bool, true, false, not, ◌||◌, List, [], ◌∷◌, Option, none, some,
  Bytes, arith, if◌then◌else◌, ◌==◌, length, Bool-cases, inl, inr,
}
use mure.Sock.{max_frame_size}
use mure.Sock.Frame.Chunks.{arriving, joined, read_frame-too_long}
use mure.Daemon.Roster.{RosterCore, roster_snapshot}
use mure.Daemon.Roster.Lookup.{results_length}
use mure.Daemon.Lifecycle.{
  Phase, started, bound, serving, refused, Host, Ping, ping_socket, Call, perform, perform_all,
  listen_calls, pings, removes, listens, chmods,
}
use mure.Daemon.Lifecycle.At.{
  At, mkdir-At, listen_free-At, clash-At, relisten-At, answered-At, unanswered-At, remove-At,
  chmod-At,
}

abbrev pub is_free : Option ℕ → Bool
is_free none = true
is_free (some d) = false

-- Where a call changes nothing, the daemon stays.
idle-At :
    {first : Host} {p : ℕ} {x : Phase} {o : Option ℕ} (c : Call) {h : Host}
    → perform c h ≡ h
    → At first p x o h
    → At first p x o (perform c h)
idle-At c e v = rw e v

-- What the rest of the calls makes of a daemon that has bound, or that was refused.
module _ (p : ℕ) (r : Ping) {first : Host} {o : Option ℕ} where
  bound-At :
      (h : Host)
      → At first p bound o h
      → At first p serving o
          (perform_all (pings p r ∷ removes p ∷ listens p true ∷ chmods p true ∷ []) h)
  unfolding perform
  bound-At h v =
      let pinged = idle-At (pings p r) (rw v.here) v in
      let removed = idle-At (removes p) (rw pinged.here) pinged in
      let listened = idle-At (listens p true) (rw removed.here) removed in chmod-At listened

  refused-At :
      (h : Host)
      → At first p refused o h
      → At first p refused o (perform_all (removes p ∷ listens p true ∷ chmods p true ∷ []) h)
  unfolding perform
  refused-At h v =
      let removed = idle-At (removes p) (rw v.here) v in
      let listened = idle-At (listens p true) (rw removed.here) removed in
      idle-At (chmods p true) (rw listened.here) listened

-- What `Listen` makes of the path that it finds.
abbrev pub takes : Option ℕ → Ping → Bool
takes o r = is_free o || not (ping_socket r)

pub listen-At :
    (p : ℕ) (r : Ping) (o : Option ℕ) (h : Host)
    → h.path ≡ o
    → h.phase p ≡ started
    → At h p
        (if takes o r then serving else refused)
        (if takes o r then some p else o)
        (perform_all (listen_calls p r) h)
listen-At p r none h e s =
    let begun : At h p started none h = record { here = s; path = e; rest = λ i d. refl } in
    bound-At p r _ (listen_free-At (mkdir-At begun))
listen-At p r (some d) h e s =
    let begun : At h p started (some d) h = record { here = s; path = e; rest = λ i d. refl } in
    let clash = clash-At (mkdir-At begun) in
    elim (Bool-cases (ping_socket r)) [
      | inl answers ↦ rw answers (refused-At p r _ (answered-At r answers clash))
      | inr silent ↦ rw silent (chmod-At (relisten-At (remove-At (unanswered-At r silent clash))))
    ]

-- One daemon that runs through `Listen`, with the calls of package os succeeding. Where no socket is
-- at the path, or the ping of the one that is there fails, it ends up serving with its socket at the
-- path; where the ping is answered it is refused and the path is as before. The other daemons are
-- left as they were.
pub perform_all-listen_calls :
    (p : ℕ) (r : Ping) (h : Host)
    → h.phase p ≡ started
    → let h' = perform_all (listen_calls p r) h in
      (h'.phase p ≡ (if takes h.path r then serving else refused))
      × (h'.path ≡ (if takes h.path r then some p else h.path))
      × ((i : ℕ) → (i == p) ≡ false → h'.phase i ≡ h.phase i)
perform_all-listen_calls p r h s = let v = listen-At p r h.path h refl s in (v.here, v.path, v.rest)

ping_socket-too_large :
    (r : Ping) (prefixes : List Bytes) (last : Bytes) (chunks : List (Bytes × Bool))
    → max_frame_size < length (joined prefixes last)
    → r.chunks ≡ arriving prefixes last chunks
    → ping_socket r ≡ false
unfolding ping_socket
ping_socket-too_large r prefixes last chunks long e =
    rw (e, read_frame-too_long prefixes last chunks long) (ground arith)

-- Where a daemon serves whose registry holds results that are together longer than a frame may be,
-- and its answer to the ping is no shorter than they are, a second daemon that runs through `Listen`
-- takes the path: both serve, and only the second can be dialled.
pub results_lose_the_socket :
    (c : RosterCore) (p q : ℕ) (r : Ping) (h : Host) (prefixes : List Bytes) (last : Bytes)
    (chunks : List (Bytes × Bool))
    → max_frame_size < results_length (roster_snapshot c).agents
    → results_length (roster_snapshot c).agents ≤ length (joined prefixes last)
    → r.chunks ≡ arriving prefixes last chunks
    → h.path ≡ some q
    → h.phase q ≡ serving
    → (q == p) ≡ false
    → h.phase p ≡ started
    → let h' = perform_all (listen_calls p r) h in
      (h'.phase q ≡ serving) × (h'.phase p ≡ serving) × (h'.path ≡ some p)
results_lose_the_socket c p q r h prefixes last chunks many shown arrives at_path serves other s =
    let silent = ping_socket-too_large r prefixes last chunks (omega arith) arrives in
    let v = listen-At p r (some q) h at_path s in
    (
      v.rest q other ∙ serves,
      v.here ∙ ap (λ b. if (false || not b) then serving else refused) silent,
      v.path ∙ ap (λ b. if (false || not b) then some p else some q) silent,
    )
