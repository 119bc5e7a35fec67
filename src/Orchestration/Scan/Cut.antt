-- ===== src/Orchestration/Scan/Cut.antt =====
-- How `StreamScan` cuts its buffer into lines
-- (`application/orchestration.py`).
use Prim.Native.Char.{Char, code}
use Prim.Native.String.{[] as empty_text, ◌∷◌ as ◌then_char◌, count}
use code_zard.Prelude.{
  ℕ, suc, ◌-◌, ◌==◌, ◌≤◌, String, false, List, [], ◌∷◌, ◌++◌, ◌≡◌, refl, ap, ◌∙◌, arith, Each,
  Bool-cases, inl, inr,
}
use text.Mathlib.TextLemmas.{nil-append, cons-append, length-cons}
use code_zard.Prelude.Text.{concat}
use code_zard.Orchestration.Scan.{max_tail, put_first, cut, keep_last}

pub nil_concat : (t : String) → concat "" t ≡ t
nil_concat t = nil-append t

cons_concat : (c : Char) (s t : String) → concat (c then_char s) t ≡ (c then_char concat s t)
cons_concat c s t = cons-append c s t

-- Two cut texts, of which the second one began with what the first one left.
abbrev pub join_cut : List String → List String × String → List String × String
join_cut lines p = (lines ++ p.0, p.1)

put_first-join_cut :
    (c : Char) (t : String) (p : List String × String)
    → (code c == b'\n') ≡ false
    → put_first c (join_cut p.0 (cut (concat p.1 t)))
      ≡ join_cut (put_first c p).0 (cut (concat (put_first c p).1 t))
unfolding cut
put_first-join_cut c t ([], last) other = rw (cons_concat c last t, other)
put_first-join_cut c t (line ∷ lines, last) other = refl

-- Cutting a longer text goes on from what cutting its first part left.
pub cut-concat : (s t : String) → cut (concat s t) ≡ join_cut (cut s).0 (cut (concat (cut s).1 t))
unfolding cut
cut-concat empty_text t = rw (nil_concat t)
cut-concat (c then_char s) t = elim (Bool-cases (code c == b'\n')) [
  | inl newline ↦ rw (cons_concat c s t, newline) (ap (λ p. ("" ∷ p.0, p.1)) (cut-concat s t))
  | inr other ↦
      rw (cons_concat c s t, other)
        (ap (put_first c) (cut-concat s t) ∙ put_first-join_cut c t (cut s) other)
]

put_first-last :
    (c : Char) (p : List String × String)
    → (code c == b'\n') ≡ false
    → cut p.1 ≡ ([], p.1)
    → cut (put_first c p).1 ≡ ([], (put_first c p).1)
unfolding cut
put_first-last c ([], last) other unbroken = rw (other, unbroken)
put_first-last c (line ∷ lines, last) other unbroken = unbroken

-- What cutting leaves has no line end.
pub cut-last : (s : String) → cut (cut s).1 ≡ ([], (cut s).1)
unfolding cut
cut-last empty_text = refl
cut-last (c then_char s) = elim (Bool-cases (code c == b'\n')) [
  | inl newline ↦ rw newline (cut-last s)
  | inr other ↦ rw other (put_first-last c (cut s) other (cut-last s))
]

-- The lines of a cut text, the unfinished one too, have at most as many bytes as the scan keeps.
abbrev pub Short : List String × String → Type 0
Short p = Each (λ line. count line ≤ max_tail) p.0 × (count p.1 ≤ max_tail)

abbrev first_line : List String × String → String
first_line ([], last) = last
first_line (line ∷ lines, last) = line

Short-first_line : (p : List String × String) → Short p → count (first_line p) ≤ max_tail
Short-first_line ([], last) short = short.1
Short-first_line (line ∷ lines, last) short = short.0.0

pub Short-join_cut :
    (lines : List String) (p : List String × String) → Short (join_cut lines p) → Short p
Short-join_cut [] p short = short
Short-join_cut (line ∷ lines) p short = Short-join_cut lines p (short.0.1, short.1)

count-first_line :
    (c : Char) (p : List String × String)
    → count (first_line (put_first c p)) ≡ suc (count (first_line p))
count-first_line c ([], last) = length-cons c last
count-first_line c (line ∷ lines, last) = length-cons c line

put_first-grows :
    (c : Char) (t : String) (p : List String × String)
    → (code c == b'\n') ≡ false
    → count p.1 ≤ count (first_line (cut (concat p.1 t)))
    → count (put_first c p).1 ≤ count (first_line (cut (concat (put_first c p).1 t)))
unfolding cut
put_first-grows c t ([], last) other grows =
    rw (cons_concat c last t, other, count-first_line c (cut (concat last t)), length-cons c last)
      (omega arith)
put_first-grows c t (line ∷ lines, last) other grows = grows

-- What follows an unfinished line makes it longer.
count-last : (s t : String) → count (cut s).1 ≤ count (first_line (cut (concat (cut s).1 t)))
unfolding cut
count-last empty_text t = omega arith
count-last (c then_char s) t = elim (Bool-cases (code c == b'\n')) [
  | inl newline ↦ rw newline (count-last s t)
  | inr other ↦ rw other (put_first-grows c t (cut s) other (count-last s t))
]

pub Short-last : (s t : String) → Short (cut (concat s t)) → count (cut s).1 ≤ max_tail
Short-last s t short =
    let rest = cut (concat (cut s).1 t) in
    let rest_short = Short-join_cut (cut s).0 rest (rw (cut-concat s t) at short) in
    omega (arith, count-last s t, Short-first_line rest rest_short)

pub keep_last_lem : (n : ℕ) (s : String) → count s ≤ n → keep_last n s ≡ s
unfolding keep_last
keep_last_lem n s fits = let none_gone : count s - n ≡ 0 = omega arith in rw none_gone
