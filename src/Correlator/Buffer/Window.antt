-- ===== src/Correlator/Buffer/Window.antt =====
-- What the buffer holds is what was added and has not left the window.
use rca_operator.Base.{
  ℕ, ◌+◌, ◌≤◌, ◌≡◌, refl, ap, sym, Bool, not, List, [], ◌∷◌, ◌++◌, filter_by, arith, drop, ltb,
  ltb→ge, Bool-cases, inl, inr,
}
use rca_operator.Correlator.Buffer.{Entry, stale_count}

-- An entry is in the window at `now`: AddedAt is not before now - window.
abbrev pub fresh : ℕ → ℕ → Entry → Bool
fresh window now e = not (ltb (e.added_at + window) now)

-- Entries in the order of their instants, none before `lo` or after `hi`.
abbrev pub Chain : ℕ → List Entry → ℕ → Type 0
Chain lo [] hi = lo ≤ hi
Chain lo (e ∷ es) hi = (lo ≤ e.added_at) × Chain e.added_at es hi

Chain-weaken : (lo m hi : ℕ) (es : List Entry) → lo ≤ m → Chain m es hi → Chain lo es hi
Chain-weaken lo m hi [] h c = omega arith
Chain-weaken lo m hi (e ∷ es) h c = (omega arith, c.1)

pub Chain-append :
    (lo hi : ℕ) (es : List Entry) (e : Entry)
    → hi ≤ e.added_at
    → Chain lo es hi
    → Chain lo (es ++ e ∷ []) e.added_at
Chain-append lo hi [] e h c = omega arith
Chain-append lo hi (x ∷ es) e h c = (c.0, Chain-append x.added_at hi es e h c.1)

pub Chain-extend : (lo hi t : ℕ) (es : List Entry) → hi ≤ t → Chain lo es hi → Chain lo es t
Chain-extend lo hi t [] h c = omega arith
Chain-extend lo hi t (x ∷ es) h c = (c.0, Chain-extend x.added_at hi t es h c.1)

pub Chain-filter_by :
    (lo hi : ℕ) (p : Entry → Bool) (es : List Entry) → Chain lo es hi → Chain lo (filter_by p es) hi
Chain-filter_by lo hi p [] c = c
Chain-filter_by lo hi p (e ∷ es) c =
    let rest = Chain-filter_by e.added_at hi p es c.1 in
    let weak = Chain-weaken lo e.added_at hi (filter_by p es) c.0 rest in
    elim (Bool-cases (p e)) [ inl kept ↦ rw kept (c.0, rest) | inr gone ↦ rw gone weak ]

all_fresh :
    (window now lo hi : ℕ) (es : List Entry)
    → now ≤ lo + window
    → Chain lo es hi
    → filter_by (fresh window now) es ≡ es
all_fresh window now lo hi [] h c = refl
all_fresh window now lo hi (e ∷ es) h c =
    ground (arith, all_fresh window now e.added_at hi es (omega arith) c.1)

pub drop-stale_count :
    (window now lo hi : ℕ) (es : List Entry)
    → Chain lo es hi
    → drop (stale_count window now es) es ≡ filter_by (fresh window now) es
unfolding stale_count
drop-stale_count window now lo hi [] c = refl
drop-stale_count window now lo hi (e ∷ es) c = elim (Bool-cases (ltb (e.added_at + window) now)) [
  | inl old ↦ rw old (drop-stale_count window now e.added_at hi es c.1)
  | inr new ↦ rw new (
      ap (◌∷◌ e)
        (sym (all_fresh window now e.added_at hi es (ltb→ge (e.added_at + window) now new) c.1)))
]

pub filter_by-fresh_again :
    (window t now : ℕ) (es : List Entry)
    → t ≤ now
    → filter_by (fresh window now) (filter_by (fresh window t) es) ≡ filter_by (fresh window now) es
filter_by-fresh_again window t now [] h = refl
filter_by-fresh_again window t now (e ∷ es) h =
    ground (arith, filter_by-fresh_again window t now es h)
