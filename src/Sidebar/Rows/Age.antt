-- ===== src/Sidebar/Rows/Age.antt =====
-- What the rows show for an end of turn in seconds, and for one in milliseconds.
use mure.Base.{
  ℕ, ◌+◌, ◌*◌, ◌<◌, ◌-◌, ◌/◌, ◌%◌, if_ind, ◌≡◌, refl, ap, Option, some, ltb, arith, equal,
}
use mure.Base.Int.{pos}
use mure.Sock.{status_idle}
use mure.Sidebar.Rows.{just_finished, second, is_recent, glyph, elapsed}

-- Of a turn that ended `t` milliseconds after 1970, the idle agent's row shows the glyph of a turn
-- just finished and an elapsed time of 0, for as long as `later < 999 * t` milliseconds have passed.
pub glyph_of_milliseconds :
    (t later : ℕ)
    → 0 < t
    → later < 999 * t
    → (glyph status_idle (pos t) ((t + later) * 1000000) ≡ just_finished)
      × (elapsed (pos t) ((t + later) * 1000000) ≡ some (0, 0))
unfolding glyph is_recent elapsed equal
glyph_of_milliseconds t later p l =
    let now = (t + later) * 1000000 in
    let past : now < t * second = omega arith in
    let a : now - t * second ≡ 0 = omega arith in
    (
      if_ind (λ g. g ≡ just_finished) (is_recent (pos t) now) _ _ (λ _. refl)
          (λ f. absurd (ground (arith, past))),
      if_ind (λ (o : Option (ℕ × ℕ)). o ≡ some (0, 0)) (ltb 0 t) _ _
          (λ _. ap (λ (x : ℕ). some (x / (60 * second), x / second % 60)) a)
          (λ f. absurd (ground arith)),
    )
