-- ===== src/Daemon/Lifecycle/Exclusive.antt =====
-- A daemon that serves and answers keeps its socket.
use mure.Base.{
  ℕ, ◌≡◌, refl, Bool, true, false, List, [], ◌∷◌, Option, none, some, arith, All, if_ind, ◌==◌,
}
use mure.Daemon.Lifecycle.{
  Phase, started, dir_made, clashed, stale, unlinked, bound, serving, ending, refused, failed, Host,
  Ping, ping_socket, become, bind, on_mkdir, on_listen, on_ping, on_remove, on_chmod, on_close,
  on_break, Call, makes_dir, listens, chmods, pings, removes, closes, breaks, perform, perform_all,
}

-- A daemon that neither holds a socket nor is about to touch one.
abbrev pub IsMeek : Phase → Type 0
IsMeek stale = ⊥
IsMeek unlinked = ⊥
IsMeek bound = ⊥
IsMeek serving = ⊥
IsMeek ending = ⊥
IsMeek _ = Unit {0}

-- `q` serves at the path, and is alone.
pub record Holds (q : ℕ) (h : Host) : Type 0 where
  pub at_path : h.path ≡ some q
  pub serves : h.phase q ≡ serving
  pub alone : (p : ℕ) → (p == q) ≡ false → IsMeek (h.phase p)

abbrev pub caller : Call → ℕ
caller (makes_dir p _) = p
caller (listens p _) = p
caller (chmods p _) = p
caller (pings p _) = p
caller (removes p) = p
caller (closes p) = p
caller (breaks p) = p

abbrev pub IsAnswered : Call → Type 0
IsAnswered (pings p r) = ping_socket r ≡ true
IsAnswered _ = Unit {0}

-- A call of another daemon, which `q` answers if it is a ping.
pub record IsForeign (q : ℕ) (c : Call) : Type 0 where
  pub other : (caller c == q) ≡ false
  pub answered : IsAnswered c

become-Holds :
    (p q : ℕ) (x : Phase) (h : Host)
    → (p == q) ≡ false
    → IsMeek x
    → Holds q h
    → Holds q (become p x h)
become-Holds p q x h e m v = record {
  at_path = v.at_path;
  serves = ground (arith, v.serves);
  alone = λ i d. if_ind IsMeek (i == p) _ _ (λ _. m) (λ _. v.alone i d);
}

bind-Holds :
    (p q : ℕ) (ok : Bool) (x : Phase) (o : Option ℕ) (h : Host)
    → (p == q) ≡ false
    → IsMeek x
    → h.path ≡ o
    → Holds q h
    → Holds q (bind p ok x o h)
bind-Holds p q true x none h e m o v = absurd (ground (arith, v.at_path))
bind-Holds p q true x (some d) h e m o v = become-Holds p q x h e m v
bind-Holds p q false x none h e m o v = become-Holds p q x h e m v
bind-Holds p q false x (some d) h e m o v = become-Holds p q x h e m v

module _ (p q : ℕ) (h : Host) (e : (p == q) ≡ false) (v : Holds q h) where
  on_mkdir-Holds : (ok : Bool) (x : Phase) → Holds q (on_mkdir p ok x h)
  unfolding on_mkdir
  on_mkdir-Holds true started = become-Holds p q dir_made h e tt v
  on_mkdir-Holds false started = become-Holds p q failed h e tt v
  on_mkdir-Holds ok _ = v

  on_listen-Holds : (ok : Bool) (x : Phase) → IsMeek x → Holds q (on_listen p ok x h)
  unfolding on_listen
  on_listen-Holds ok dir_made m = bind-Holds p q ok clashed h.path h e tt refl v
  on_listen-Holds ok unlinked m = absurd m
  on_listen-Holds ok _ m = v

  on_ping-Holds : (r : Ping) (x : Phase) → ping_socket r ≡ true → Holds q (on_ping p r x h)
  unfolding on_ping
  on_ping-Holds r clashed a = rw a (become-Holds p q refused h e tt v)
  on_ping-Holds r _ a = v

  on_remove-Holds : (x : Phase) → IsMeek x → Holds q (on_remove p x h)
  unfolding on_remove
  on_remove-Holds stale m = absurd m
  on_remove-Holds ending m = absurd m
  on_remove-Holds _ m = v

  on_chmod-Holds : (ok : Bool) (x : Phase) → IsMeek x → Holds q (on_chmod p ok x h)
  unfolding on_chmod
  on_chmod-Holds ok bound m = absurd m
  on_chmod-Holds ok _ m = v

  on_close-Holds : (x : Phase) → IsMeek x → Holds q (on_close p x h)
  unfolding on_close
  on_close-Holds serving m = absurd m
  on_close-Holds _ m = v

  on_break-Holds : (x : Phase) → IsMeek x → Holds q (on_break p x h)
  unfolding on_break
  on_break-Holds serving m = absurd m
  on_break-Holds _ m = v

perform-Holds : (q : ℕ) (c : Call) (h : Host) → IsForeign q c → Holds q h → Holds q (perform c h)
unfolding perform
perform-Holds q (makes_dir p ok) h f v = on_mkdir-Holds p q h f.other v ok (h.phase p)
perform-Holds q (listens p ok) h f v =
    on_listen-Holds p q h f.other v ok (h.phase p) (v.alone p f.other)
perform-Holds q (chmods p ok) h f v =
    on_chmod-Holds p q h f.other v ok (h.phase p) (v.alone p f.other)
perform-Holds q (pings p r) h f v = on_ping-Holds p q h f.other v r (h.phase p) f.answered
perform-Holds q (removes p) h f v = on_remove-Holds p q h f.other v (h.phase p) (v.alone p f.other)
perform-Holds q (closes p) h f v = on_close-Holds p q h f.other v (h.phase p) (v.alone p f.other)
perform-Holds q (breaks p) h f v = on_break-Holds p q h f.other v (h.phase p) (v.alone p f.other)

-- Where a daemon alone serves at the path, it goes on to, alone, whatever other daemons are started,
-- in whatever order they make their calls and whichever of these fail, for as long as it answers
-- their pings and does not itself close.
pub perform_all-Holds :
    (q : ℕ) (cs : List Call) (h : Host)
    → All (IsForeign q) cs
    → Holds q h
    → Holds q (perform_all cs h)
perform_all-Holds q [] h f v = v
perform_all-Holds q (c ∷ cs) h f v =
    perform_all-Holds q cs (perform c h) f.1 (perform-Holds q c h f.0 v)
