-- ===== src/Daemon/Connections/Tracked.antt =====
-- What `conns` holds, and what the end of `Run` closes.
use mure.Base.{
  ℕ, ◌≡◌, refl, ap, ◌∙◌, Bool, true, false, not, ◌&&◌, ◌||◌, List, [], ◌∷◌, if◌then◌else◌, ◌==◌,
  arith, if_ind, ==_iff, Bool-cases, inl, inr,
}
use mure.Daemon.Connections.{
  Stage, unknown, accepted, handled, over, Front, empty_front, is_tracked, track, untrack,
  on_accept, on_track, on_leave, sweep, Move, accepts, tracks, leaves, stops, sweeps, move, moves,
}

abbrev pub is_handled : Stage → Bool
is_handled handled = true
is_handled _ = false

abbrev pub may_be_open : Stage → Bool
may_be_open accepted = true
may_be_open handled = true
may_be_open _ = false

-- The connections in the map are those whose handlers run, and no other than these and those that
-- were accepted and not tracked yet is open.
pub record Inv (f : Front) : Type 0 where
  pub tracked : (c : ℕ) → is_tracked c f.conns ≡ is_handled (f.stage c)
  pub opened : (c : ℕ) → f.is_open c ≡ true → may_be_open (f.stage c) ≡ true

is_tracked-track : (c i : ℕ) (ds : List ℕ) → is_tracked i (track c ds) ≡ (i == c || is_tracked i ds)
unfolding is_tracked track
is_tracked-track c i ds = elim (Bool-cases (is_tracked c ds)) [
  | inl old ↦ elim (Bool-cases (i == c)) [
    | inl same ↦ rw (old, same) (ap (λ j. is_tracked j ds) ((==_iff i c).0 same) ∙ old)
    | inr other ↦ rw (old, other)
  ]
  | inr new ↦ rw new
]

is_tracked-untrack :
    (c i : ℕ) (ds : List ℕ) → is_tracked i (untrack c ds) ≡ (not (i == c) && is_tracked i ds)
unfolding is_tracked untrack
is_tracked-untrack c i [] = ground arith
is_tracked-untrack c i (d ∷ ds) = ground (arith, is_tracked-untrack c i ds)

-- A fact about every stage, for a front in which that of `c` is another.
stage_cases :
    (P : ℕ → Stage → Type 0) (c : ℕ) (x : Stage) (f : Front)
    → ((i : ℕ) → (i == c) ≡ true → P i x)
    → ((i : ℕ) → (i == c) ≡ false → P i (f.stage i))
    → (i : ℕ) → P i (if i == c then x else f.stage i)
stage_cases P c x f here there i = if_ind (P i) (i == c) _ _ (here i) (there i)

stage-at : (i c : ℕ) (f : Front) (x : Stage) → f.stage c ≡ x → (i == c) ≡ true → f.stage i ≡ x
stage-at i c f x e same = ap f.stage ((==_iff i c).0 same) ∙ e

module _ (c : ℕ) (f : Front) (v : Inv f) where
  on_accept-Inv : (x : Stage) → f.stage c ≡ x → Inv (on_accept c x f)
  unfolding on_accept
  on_accept-Inv unknown e =
      if_ind Inv f.is_running _ _
        (λ _. record {
          tracked =
              stage_cases (λ i s. is_tracked i f.conns ≡ is_handled s) c accepted f
                (λ i same. v.tracked i ∙ ap is_handled (stage-at i c f unknown e same))
                (λ i other. v.tracked i);
          opened =
              stage_cases
                (λ i s. (if i == c then true else f.is_open i) ≡ true → may_be_open s ≡ true) c
                accepted f (λ i same o. refl) (λ i other o. v.opened i (rw other at o));
        })
        (λ _. v)
  on_accept-Inv _ e = v

  on_track-Inv : (x : Stage) → f.stage c ≡ x → Inv (on_track c x f)
  unfolding on_track
  on_track-Inv accepted e = record {
    tracked =
        stage_cases (λ i s. is_tracked i (track c f.conns) ≡ is_handled s) c handled f
          (λ i same. is_tracked-track c i f.conns ∙ rw same)
          (λ i other. is_tracked-track c i f.conns ∙ rw other (v.tracked i));
    opened =
        stage_cases (λ i s. f.is_open i ≡ true → may_be_open s ≡ true) c handled f
          (λ i same o. refl) (λ i other o. v.opened i o);
  }
  on_track-Inv _ e = v

  on_leave-Inv : (x : Stage) → f.stage c ≡ x → Inv (on_leave c x f)
  unfolding on_leave
  on_leave-Inv handled e = record {
    tracked =
        stage_cases (λ i s. is_tracked i (untrack c f.conns) ≡ is_handled s) c over f
          (λ i same. is_tracked-untrack c i f.conns ∙ rw same)
          (λ i other. is_tracked-untrack c i f.conns ∙ rw other (v.tracked i));
    opened =
        stage_cases (λ i s. (if i == c then false else f.is_open i) ≡ true → may_be_open s ≡ true) c
          over f (λ i same o. absurd (ground (arith, o, same)))
          (λ i other o. v.opened i (rw other at o));
  }
  on_leave-Inv _ e = v

sweep-Inv : (f : Front) → Inv f → Inv (sweep f)
unfolding sweep
sweep-Inv f v =
    if_ind Inv (f.is_running || f.is_swept) _ _ (λ _. v)
      (λ _. record { tracked = v.tracked; opened = λ i o. v.opened i (ground (arith, o)) })

move-Inv : (m : Move) (f : Front) → Inv f → Inv (move m f)
unfolding move
move-Inv (accepts c) f v = on_accept-Inv c f v (f.stage c) refl
move-Inv (tracks c) f v = on_track-Inv c f v (f.stage c) refl
move-Inv (leaves c) f v = on_leave-Inv c f v (f.stage c) refl
move-Inv stops f v = record { tracked = v.tracked; opened = v.opened }
move-Inv sweeps f v = sweep-Inv f v

moves-Inv : (ms : List Move) (f : Front) → Inv f → Inv (moves ms f)
moves-Inv [] f v = v
moves-Inv (m ∷ ms) f v = moves-Inv ms (move m f) (move-Inv m f v)

empty_front-Inv : Inv empty_front
unfolding is_tracked
empty_front-Inv = record { tracked = λ c. refl; opened = λ c o. cc }

abbrev pub is_accepted : Stage → Bool
is_accepted accepted = true
is_accepted _ = false

left-open :
    (b : Bool) (x : Stage)
    → (b ≡ true → may_be_open x ≡ true)
    → (b && not (is_handled x)) ≡ (b && is_accepted x)
left-open false x h = refl
left-open true unknown h = absurd (ground (arith, h refl))
left-open true over h = absurd (ground (arith, h refl))
left-open true accepted h = refl
left-open true handled h = refl

sweep-is_open :
    (f : Front) (c : ℕ)
    → f.is_swept ≡ false
    → (move sweeps (move stops f)).is_open c ≡ (f.is_open c && not (is_tracked c f.conns))
unfolding move
sweep-is_open f c h = rw h

-- In every order of accepts, handlers that start and end, and the end of the server, the map holds
-- the connections whose handlers are between their two calls of `trackConn`; and when `Run` returns
-- and has not closed any before, it closes all of these and leaves open just those that were accepted
-- and whose handlers have not called `trackConn` yet.
pub moves-tracked :
    (ms : List Move) (c : ℕ)
    → (moves ms empty_front).is_swept ≡ false
    → let f = moves ms empty_front in
      (is_tracked c f.conns ≡ is_handled (f.stage c))
      × ((move sweeps (move stops f)).is_open c ≡ (f.is_open c && is_accepted (f.stage c)))
moves-tracked ms c h =
    let f = moves ms empty_front in
    let v = moves-Inv ms empty_front empty_front-Inv in
    (
      v.tracked c,
      sweep-is_open f c h
          ∙ ap (λ b. f.is_open c && not b) (v.tracked c)
          ∙ left-open (f.is_open c) (f.stage c) (v.opened c),
    )
