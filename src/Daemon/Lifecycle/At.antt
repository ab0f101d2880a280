-- ===== src/Daemon/Lifecycle/At.antt =====
-- Following one daemon through its calls.
use mure.Base.{ℕ, ◌≡◌, refl, true, false, Option, none, some, arith, ◌==◌}
use mure.Daemon.Lifecycle.{
  Phase, started, dir_made, clashed, stale, unlinked, bound, serving, ending, ended, refused, Host,
  Ping, ping_socket, become, on_ping, makes_dir, listens, chmods, pings, removes, closes, perform,
}

-- `p` is at the phase `x` with `o` at the path, and the others are as in the host `first`.
pub record At (first : Host) (p : ℕ) (x : Phase) (o : Option ℕ) (h : Host) : Type 0 where
  pub here : h.phase p ≡ x
  pub path : h.path ≡ o
  pub rest : (i : ℕ) → (i == p) ≡ false → h.phase i ≡ first.phase i

pub At-start : (p : ℕ) (h : Host) → At h p (h.phase p) h.path h
At-start p h = record { here = refl; path = refl; rest = λ i d. refl }

module _ {first : Host} {p : ℕ} where
  become-At :
      {x : Phase} {o : Option ℕ} (y : Phase) (n : Option ℕ) {h : Host}
      → At first p x o h
      → At first p y n (become p y (record h { path = n }))
  become-At y n v = record {
    here = ground arith;
    path = refl;
    rest = λ i d. ground (arith, v.rest i d);
  }

  same-path :
      {x : Phase} {o : Option ℕ} (y : Phase) {h : Host}
      → At first p x o h
      → At first p y o (become p y h)
  same-path y v = record {
    here = ground arith;
    path = v.path;
    rest = λ i d. ground (arith, v.rest i d);
  }

  pub mkdir-At :
      {o : Option ℕ} {h : Host}
      → At first p started o h
      → At first p dir_made o (perform (makes_dir p true) h)
  unfolding perform
  mkdir-At {h = h} v = rw v.here (same-path dir_made v)

  pub listen_free-At :
      {h : Host}
      → At first p dir_made none h
      → At first p bound (some p) (perform (listens p true) h)
  unfolding perform
  listen_free-At v = rw (v.here, v.path) (become-At bound (some p) v)

  pub clash-At :
      {d : ℕ} {h : Host}
      → At first p dir_made (some d) h
      → At first p clashed (some d) (perform (listens p true) h)
  unfolding perform
  clash-At {d} v = rw (v.here, v.path) (become-At clashed (some d) v)

  pub relisten-At :
      {h : Host}
      → At first p unlinked none h
      → At first p bound (some p) (perform (listens p true) h)
  unfolding perform
  relisten-At v = rw (v.here, v.path) (become-At bound (some p) v)

  pub answered-At :
      (r : Ping) {o : Option ℕ} {h : Host}
      → ping_socket r ≡ true
      → At first p clashed o h
      → At first p refused o (perform (pings p r) h)
  unfolding perform on_ping
  answered-At r a v = rw (v.here, a) (same-path refused v)

  pub unanswered-At :
      (r : Ping) {o : Option ℕ} {h : Host}
      → ping_socket r ≡ false
      → At first p clashed o h
      → At first p stale o (perform (pings p r) h)
  unfolding perform on_ping
  unanswered-At r a v = rw (v.here, a) (same-path stale v)

  pub remove-At :
      {o : Option ℕ} {h : Host}
      → At first p stale o h
      → At first p unlinked none (perform (removes p) h)
  unfolding perform
  remove-At v = rw v.here (become-At unlinked none v)

  pub end-At :
      {o : Option ℕ} {h : Host}
      → At first p ending o h
      → At first p ended none (perform (removes p) h)
  unfolding perform
  end-At v = rw v.here (become-At ended none v)

  pub chmod-At :
      {o : Option ℕ} {h : Host}
      → At first p bound o h
      → At first p serving o (perform (chmods p true) h)
  unfolding perform
  chmod-At v = rw v.here (same-path serving v)

  pub close-At :
      {o : Option ℕ} {h : Host}
      → At first p serving o h
      → At first p ending none (perform (closes p) h)
  unfolding perform
  close-At v = rw v.here (become-At ending none v)
