-- ===== src/Tests/Sidebar.antt =====
-- A sidebar with two agents.
use mathlib.Core.Option
use native.Mathlib.Nat.{mul-div_cancel, zero-div}
use mure.Base.{
  ◌+◌, ℕ, ◌/◌, ◌≡◌, refl, [], ◌∷◌, none, Bytes, codes, get_elem?, arith, ◌<◌, ◌-◌, true, some, ◌*◌,
  ◌%◌, ltb, ap,
}
use mure.Base.Int.{pos}
use mure.Sock.{AgentSnapshot}
use mure.Daemon.Roster.{
  Subscriber, subscribe, exec, run, apply_result, broadcast, apply_status, upsert_from_hello, offer,
  receive_from,
}
use mure.Base.Dict.{lookup, insert}
use mure.Daemon.Roster.Buffer.{history, is_full, receive, send}
use mure.Daemon.Roster.Invariant.{run-empty_core-Inv}
use mure.Daemon.Roster.Replica.{view}
use mure.Sidebar.Agents.Find.{find_agent}
use mure.Sidebar.Themes.{themes}
use mure.Sidebar.Model.{Model, Msg, key_msg, key_runes, new_model, update}
use mure.Sidebar.Model.Invariant as Sound
use mure.Sidebar.Model.Invariant.{update-Inv}
use mure.Sidebar.Mirror.{feed, roster_frame, mirror}
use mure.Sidebar.Themes.{catppuccin_mocha}
use mure.Sidebar.View.Panel.{logo}
use mure.Sidebar.Logo.{
  Float64, position, pick_variant, format_hex, gradient_rgb, total_visible, render_logo,
}
use mure.Sidebar.Logo.Shades.{rune_lines, all_shades, values, IsExact, render_logo-shades}
use mure.Sidebar.Client.{Reader, Attempt, dial_fails, connects, run as run_client}
use mure.Sidebar.Client.Backoff.{waits_of, doubled, run-waits}
use mure.Tests.Daemon.{sample, sample_core, happenings, subscriber_or}

abbrev first : Model
first = new_model none [] (codes "/w")

first-Inv : Sound.Inv first
unfolding new_model themes
first-Inv = record {
  unique = tt;
  within = omega arith;
  theme_within = omega arith;
  prev_within = omega arith;
  shown = refl;
}

abbrev listener : Subscriber
listener = subscriber_or (get_elem? (run (subscribe sample_core) happenings).subscribers 1)

mirror_example :
    find_agent (feed (update (roster_frame sample_core) first).0 (history listener.ch)).agents
    ≡ view (run (subscribe sample_core) happenings)
unfolding run exec subscribe apply_result broadcast apply_status upsert_from_hello offer
    receive_from is_full receive send lookup insert
mirror_example =
    mirror sample_core happenings listener first (run-empty_core-Inv sample) first-Inv refl refl

abbrev press : Msg
press = key_msg (record { type_of = key_runes; name = codes "t"; runes = codes "t" })

update-Inv_example : Sound.Inv (update press first).0
update-Inv_example = update-Inv press first tt first-Inv

abbrev agent : Bytes → ℕ → AgentSnapshot
agent id created_at = record {
  id = id;
  status = [];
  role = [];
  task = [];
  pane = [];
  created_at = pos created_at;
  last_turn_ended_at = pos 0;
  result = [];
}

abbrev reader : Reader
reader = record {
  codec = record {
    envelope = λ b. none;
    hello = λ b. none;
    status = λ b. none;
    result = λ b. none;
    wait = λ b. none;
  };
  roster = λ b. none;
  update = λ b. none;
}

run-waits_example :
    get_elem? (waits_of (run_client reader 4 10 ((dial_fails, 1) ∷ (connects [], 3) ∷ []))) 1
    ≡ Option.map
        (λ (a : Attempt × ℕ). doubled 4 10 1 / 2 + a.1)
        (get_elem? ((dial_fails, 1) ∷ (connects [], 3) ∷ []) 1)
run-waits_example =
    run-waits reader 4 10 1 ((dial_fails, 1) ∷ (connects [], 3) ∷ []) (omega arith) (omega arith)
      (omega arith) (omega arith, (omega arith, tt))

-- Numbers with one binary place, from -512 on: the number v / 2 - 512.
abbrev one_place : Float64
one_place = record {
  Value = ℕ;
  of_nat = λ n. 1024 + 2 * n;
  half = 1025;
  add = λ a b. a + b - 1024;
  sub = λ a b. a + 1024 - b;
  mul = λ a b. (a * (b - 1024) + 2 * 1024 - 1024 * (b - 1024)) / 2;
  div = λ a b. 1024 + (2 * (a - 1024)) / (b - 1024);
  less = ltb;
  to_uint8 = λ a. (a - 1024) / 2 % 256;
}

unshift : (m : ℕ) → 1024 + 2 * m - 1024 ≡ 2 * m
unshift m = omega arith

self_over : (m : ℕ) → 0 < m → 2 * (2 * m) / (2 * m) ≡ 2
self_over m h = let pos : 0 < 2 * m = omega arith in mul-div_cancel 2 pos

one_place-IsExact : IsExact one_place
one_place-IsExact = record {
  zero_over = λ m h w. ap (λ k. 1024 + k) (zero-div (1024 + 2 * m - 1024));
  self_over = λ m h w.
      let e : 2 * (1024 + 2 * m - 1024) / (1024 + 2 * m - 1024) ≡ 2 =
        rw (unshift m) (self_over m h) in
      ap (λ (k : ℕ). 1024 + k) e;
  times_zero = λ x y h k. omega arith;
  times_one = λ x y h k. omega arith;
  difference = λ x y h k. omega arith;
  truncates = λ x h. omega arith;
  less_of_nat = λ a b h. ground arith;
}

render_logo-shades_example :
    let p = catppuccin_mocha.palette in
    let n = total_visible logo - 1 in
    let shade =
      λ (i : ℕ). gradient_rgb one_place true p.accent_a p.accent_b (position one_place i n) in
    (rune_lines (render_logo one_place p true logo) ≡ logo)
    × (all_shades (render_logo one_place p true logo) ≡ values shade 0 (total_visible logo))
    × (shade 0 ≡ some (pick_variant true p.accent_a))
    × (shade n ≡ some (pick_variant true p.accent_b))
unfolding total_visible format_hex
render_logo-shades_example =
    render_logo-shades one_place catppuccin_mocha.palette true logo (0xcb, 0xa6, 0xf7)
      (0xf5, 0xc2, 0xe7) one_place-IsExact (omega arith) (omega arith) refl refl
      (record { red = omega arith; green = omega arith; blue = omega arith })
      (record { red = omega arith; green = omega arith; blue = omega arith })
