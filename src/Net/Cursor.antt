-- ===== src/Net/Cursor.antt =====
-- Reading a byte sequence at a position: what `value[i]` and `value[a..b]` return where the rest of
-- the sequence from the position is known.
use native.Mathlib.Nat.{add-zero}
use newghost.Prelude.{
  ℕ, ◌+◌, ◌-◌, ◌≡◌, refl, sym, arith, ◌∙◌, ap, some, List, ◌∷◌, ◌++◌, length, length-append,
  get_elem?, get_elem?-drop, take, drop, take-append, drop-append, drop-drop,
}
use newghost.Prelude.Outcome.{ok, index, slice}

-- What stands in `frame` from position `at` to the end.
pub record At (frame : List ℕ) (at : ℕ) (rest : List ℕ) : Type 0 where
  pub here : drop at frame ≡ rest
  pub total : at + length rest ≡ length frame

pub At-start : (frame : List ℕ) → At frame 0 frame
At-start frame = record { here = refl; total = omega arith }

pub At-index :
    {E : Type 0} (frame : List ℕ) (at x : ℕ) (rest : List ℕ)
    → At frame at (x ∷ rest)
    → index {E = E} frame at ≡ ok x
At-index frame at x rest a =
    let found : get_elem? frame at ≡ some x =
      ap (get_elem? frame) (sym (add-zero at))
      ∙ sym (get_elem?-drop at 0 frame)
      ∙ ap (λ (xs : List ℕ). get_elem? xs 0) a.here in
    rw (found, index) refl

pub At-next :
    (frame : List ℕ) (at x : ℕ) (rest : List ℕ) → At frame at (x ∷ rest) → At frame (at + 1) rest
At-next frame at x rest a = record {
  here = sym (drop-drop at 1 frame) ∙ ap (drop 1) a.here;
  total = omega (arith, a.total);
}

pub At-skip :
    (frame : List ℕ) (at : ℕ) (part rest : List ℕ)
    → At frame at (part ++ rest)
    → At frame (at + length part) rest
At-skip frame at part rest a = record {
  here =
      sym (drop-drop at (length part) frame)
      ∙ ap (drop (length part)) a.here
      ∙ drop-append part rest;
  total = omega (arith, a.total, length-append part rest);
}

pub At-slice :
    {E : Type 0} (frame : List ℕ) (at : ℕ) (part rest : List ℕ)
    → At frame at (part ++ rest)
    → slice {E = E} frame at (at + length part) ≡ ok part
At-slice frame at part rest a =
    let taken : take (at + length part - at) (drop at frame) ≡ part =
      ap (λ (n : ℕ). take n (drop at frame)) (omega arith)
      ∙ ap (take (length part)) a.here
      ∙ take-append part rest in
    ground (arith, taken, a.total, length-append part rest)

-- The byte behind a known part.
pub At-nth :
    {E : Type 0} (frame : List ℕ) (at : ℕ) (part : List ℕ) (x : ℕ) (rest : List ℕ)
    → At frame at (part ++ x ∷ rest)
    → index {E = E} frame (at + length part) ≡ ok x
At-nth frame at part x rest a =
    At-index frame (at + length part) x rest (At-skip frame at part (x ∷ rest) a)
