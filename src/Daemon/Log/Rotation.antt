-- ===== src/Daemon/Log/Rotation.antt =====
-- What the log keeps, how large it gets, and what a failed rotation does to it.
use mure.Base.{
  refl, ◌+◌, ◌<◌, ◌≡◌, ◌≢◌, sym, ap, ◌∙◌, ◌⊎◌, inl, inr, true, false, List, [], ◌∷◌, ◌++◌,
  append-nil, append_assoc, Option, none, some, Bytes, length, length-append, take, arith, leb, ℕ,
  Bool, ◌&&◌, if◌then◌else◌, Bool-cases,
}
use mure.Daemon.Log.{Logger, Outcome, renamed, rename_fails, write}

abbrev pub contents : Option Bytes → Bytes
contents none = []
contents (some b) = b

-- No call fails.
pub record IsSmooth (os : Outcome) (p : Bytes) : Type 0 where
  pub closes : os.closes ≡ true
  pub renames : os.rename ≡ renamed
  pub opens : os.opens ≡ true
  pub takes : take os.written p ≡ p

pub record Inv (l : Logger) : Type 0 where
  pub open_file : l.is_open ≡ true
  pub counted : l.size ≡ length l.current

-- The bytes fit behind those of the log.
abbrev pub fits : Logger → Bytes → Bool
fits l p = leb (length l.current + length p) l.max

-- A write with no failing call, of bytes that fit, puts them behind those of the log.
write-fits :
    (os : Outcome) (p : Bytes) (l : Logger)
    → Inv l
    → IsSmooth os p
    → fits l p ≡ true
    → ((write os p l).0 ≡ true)
      × Inv (write os p l).1
      × ((write os p l).1.current ≡ l.current ++ p)
      × ((write os p l).1.backup ≡ l.backup)
      × ((write os p l).1.max ≡ l.max)
unfolding write
write-fits os p l v s f = ground (arith, length-append l.current p)

-- Of bytes that do not, it begins a new file with them and keeps the old one as backup.
write_rotates :
    (os : Outcome) (p : Bytes) (l : Logger)
    → Inv l
    → IsSmooth os p
    → fits l p ≡ false
    → ((write os p l).0 ≡ true)
      × Inv (write os p l).1
      × ((write os p l).1.current ≡ p)
      × ((write os p l).1.backup ≡ some l.current)
      × ((write os p l).1.max ≡ l.max)
unfolding write
write_rotates os p l v s f = ground (arith, length-append l.current p)

-- Writes one after another.
pub writes : List (Outcome × Bytes) → Logger → Logger
writes [] l = l
writes ((os, p) ∷ ws) l = writes ws (write os p l).1

abbrev pub AreSmooth : List (Outcome × Bytes) → Type 0
AreSmooth [] = Unit {0}
AreSmooth ((os, p) ∷ ws) = IsSmooth os p × AreSmooth ws

abbrev pub all_bytes : List (Outcome × Bytes) → Bytes
all_bytes [] = []
all_bytes ((os, p) ∷ ws) = p ++ all_bytes ws

abbrev pub all_succeed : List (Outcome × Bytes) → Logger → Bool
all_succeed [] l = true
all_succeed ((os, p) ∷ ws) l = (write os p l).0 && all_succeed ws (write os p l).1

-- What the writes make of a file that holds `f` and may hold `max` bytes: the files, from the first
-- on, into which the bytes go.
abbrev pub files : ℕ → Bytes → List (Outcome × Bytes) → Bytes × List Bytes
files max f [] = (f, [])
files max f ((os, p) ∷ ws) =
    let same = files max (f ++ p) ws in
    let new = files max p ws in if leb (length f + length p) max then same else (f, new.0 ∷ new.1)

-- The last of some files, and the one before it, which is `b` where there is only one.
abbrev pub last_two : Option Bytes → Bytes → List Bytes → Option Bytes × Bytes
last_two b f [] = (b, f)
last_two b f (g ∷ fs) = last_two (some f) g fs

abbrev pub joined : Bytes → List Bytes → Bytes
joined f [] = f
joined f (g ∷ fs) = f ++ joined g fs

-- The files hold all that was written, in order.
joined-files :
    (max : ℕ) (f : Bytes) (ws : List (Outcome × Bytes))
    → joined (files max f ws).0 (files max f ws).1 ≡ f ++ all_bytes ws
joined-files max f [] = sym (append-nil f)
joined-files max f ((os, p) ∷ ws) = elim (Bool-cases (leb (length f + length p) max)) [
  | inl same ↦ rw same (joined-files max (f ++ p) ws ∙ append_assoc f p (all_bytes ws))
  | inr full ↦ rw full (ap (λ x. f ++ x) (joined-files max p ws))
]

-- With no failing call every write succeeds, and the bytes go into one file after another: each
-- write into the file of the one before where the two fit the limit together, and otherwise into a
-- new file. The files hold all the bytes in order; the log holds the last of them and the backup the
-- one before it.
pub writes-files :
    (ws : List (Outcome × Bytes)) (l : Logger)
    → Inv l
    → AreSmooth ws
    → let (f, fs) = files l.max l.current ws in
      (all_succeed ws l ≡ true)
      × Inv (writes ws l)
      × (((writes ws l).backup, (writes ws l).current) ≡ last_two l.backup f fs)
      × (joined f fs ≡ l.current ++ all_bytes ws)
unfolding writes
writes-files [] l v s = (refl, v, refl, joined-files l.max l.current [])
writes-files ((os, p) ∷ ws) l v s = elim (Bool-cases (fits l p)) [
  | inl same ↦
      let (ok, v', c, b, m) = write-fits os p l v s.0 same in
      let (oks, inv, e, _) = writes-files ws (write os p l).1 v' s.1 in
      (rw ok oks, inv, rw same (e ∙ rw (b, c, m) refl), joined-files l.max l.current ((os, p) ∷ ws))
  | inr full ↦
      let (ok, v', c, b, m) = write_rotates os p l v s.0 full in
      let (oks, inv, e, _) = writes-files ws (write os p l).1 v' s.1 in
      (rw ok oks, inv, rw full (e ∙ rw (b, c, m) refl), joined-files l.max l.current ((os, p) ∷ ws))
]

write_closed :
    (os : Outcome) (p : Bytes) (l : Logger)
    → l.is_open ≡ false
    → ((write os p l).1.is_open ≡ false) × (p ≢ [] → (write os p l).0 ≡ false)
unfolding write
write_closed os [] l c = ground arith
write_closed os (b ∷ p) l c = ground arith

writes_closed :
    (ws : List (Outcome × Bytes)) (l : Logger) → l.is_open ≡ false → (writes ws l).is_open ≡ false
unfolding writes
writes_closed [] l c = c
writes_closed ((os, p) ∷ ws) l c = writes_closed ws _ (write_closed os p l c).0

-- A rotation whose rename or open fails once leaves the log with a closed file for good: whatever
-- is written later, and however the calls come out then, every write of some bytes fails.
pub failed_rotation_is_final :
    (os os' : Outcome) (p q : Bytes) (ws : List (Outcome × Bytes)) (l : Logger)
    → l.max < l.size + length p
    → (os.rename ≡ rename_fails) ⊎ (os.opens ≡ false)
    → q ≢ []
    → (write os' q (writes ws (write os p l).1)).0 ≡ false
failed_rotation_is_final os os' p q ws l full broken some_bytes =
    (write_closed os' q _ (writes_closed ws _ closed)).1 some_bytes
  where
    closed : (write os p l).1.is_open ≡ false
    closed = unfold write in ground arith
