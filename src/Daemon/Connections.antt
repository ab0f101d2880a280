-- ===== src/Daemon/Connections.antt =====
-- internal/daemon/server.go: the connections of one server, from `Accept` to the end of `Run`.
-- A connection is named by a number. Its handler's work between the two calls of `trackConn` is
-- Daemon.Server.
pub mod Tracked
use mure.Base.{ℕ, Bool, true, false, not, ◌&&◌, ◌||◌, List, [], ◌∷◌, if◌then◌else◌, ◌==◌}

-- `unknown`: never accepted. `accepted`: its goroutine has not called `trackConn` yet.
pub data Stage : Type 0 where
  unknown accepted handled over : Stage

-- `is_running` is the accept loop; `is_swept` is set once the deferred function of `Run` has closed
-- what it found.
pub record Front : Type 0 where
  pub conns : List ℕ
  pub stage : ℕ → Stage
  pub is_open : ℕ → Bool
  pub is_running : Bool
  pub is_swept : Bool

abbrev pub empty_front : Front
empty_front = record {
  conns = [];
  stage = λ c. unknown;
  is_open = λ c. false;
  is_running = true;
  is_swept = false;
}

unfoldable pub is_tracked : ℕ → List ℕ → Bool
is_tracked c [] = false
is_tracked c (d ∷ ds) = c == d || is_tracked c ds

-- The assignment to the map, and the delete.
unfoldable pub track : ℕ → List ℕ → List ℕ
unfolding is_tracked
track c ds = if is_tracked c ds then ds else c ∷ ds

unfoldable pub untrack : ℕ → List ℕ → List ℕ
untrack c [] = []
untrack c (d ∷ ds) = let rest = untrack c ds in if c == d then rest else d ∷ rest

abbrev pub to_stage : ℕ → Stage → Front → Front
to_stage c s f = record f { stage = λ i. if i == c then s else f.stage i }

abbrev pub set_open : ℕ → Bool → Front → Front
set_open c b f = record f { is_open = λ i. if i == c then b else f.is_open i }

unfoldable pub on_accept : ℕ → Stage → Front → Front
on_accept c unknown f = if f.is_running then set_open c true (to_stage c accepted f) else f
on_accept c _ f = f

-- `trackConn(conn, true)`, and the deferred close and `trackConn(conn, false)`.
unfoldable pub on_track : ℕ → Stage → Front → Front
unfolding track
on_track c accepted f = to_stage c handled (record f { conns = track c f.conns })
on_track c _ f = f

unfoldable pub on_leave : ℕ → Stage → Front → Front
unfolding untrack
on_leave c handled f = set_open c false (to_stage c over (record f { conns = untrack c f.conns }))
on_leave c _ f = f

-- The deferred function of `Run`. The map keeps what it holds.
unfoldable pub sweep : Front → Front
unfolding is_tracked
sweep f =
    if f.is_running || f.is_swept
    then f
    else record f { is_open = λ i. f.is_open i && not (is_tracked i f.conns); is_swept = true }

pub data Move : Type 0 where
  accepts tracks leaves : ℕ → Move
  stops sweeps : Move

unfoldable pub move : Move → Front → Front
unfolding on_accept on_track on_leave sweep
move (accepts c) f = on_accept c (f.stage c) f
move (tracks c) f = on_track c (f.stage c) f
move (leaves c) f = on_leave c (f.stage c) f
move stops f = record f { is_running = false }
move sweeps f = sweep f

abbrev pub moves : List Move → Front → Front
moves [] f = f
moves (m ∷ ms) f = moves ms (move m f)
