-- ===== src/Naming/Fit.antt =====
-- `_fit` of coppermind/naming.py keeps both budgets, and adds no character.
use coppermind.Base.{
  ℕ, zero, suc, ◌≤◌, ◌≡◌, inl, inr, false, not, ◌&&◌, ◌||◌, [], ◌∷◌, length, length-take, All, ltb,
  leb, Bool-cases, arith,
}
use coppermind.Base.Texts.{Text, is_empty, is_space, utf8_length}
use coppermind.Base.Strip.{Within, All-rstrip, All-strip, All-take, rstrip-Within, strip-Within}
use coppermind.Naming.{drop_last, trim_bytes, cut_chars, is_dot_space, fit}

length-drop_last : (s : Text) (n : ℕ) → length s ≤ suc n → length (drop_last s) ≤ n
length-drop_last [] n h = omega arith
length-drop_last (c ∷ []) n h = omega arith
length-drop_last (c ∷ d ∷ s) zero h = absurd (omega arith)
length-drop_last (c ∷ d ∷ s) (suc n) h = omega (arith, length-drop_last (d ∷ s) n (omega arith))

stopped-Within :
    (n b : ℕ) (s : Text)
    → (not (is_empty s) && ltb b (utf8_length s)) ≡ false
    → length s ≤ n
    → Within n b s
unfolding utf8_length
stopped-Within n b [] e k = omega arith
stopped-Within n b (c ∷ s) e k = ground arith

-- The loop ends with the bytes within the budget.
trim_bytes-Within :
    (fuel n b : ℕ) (s : Text) → length s ≤ fuel → length s ≤ n → Within n b (trim_bytes fuel b s)
unfolding trim_bytes utf8_length
trim_bytes-Within zero n b [] h k = omega arith
trim_bytes-Within zero n b (c ∷ s) h k = absurd (omega arith)
trim_bytes-Within (suc fuel) n b s h k =
    elim (Bool-cases (not (is_empty s) && ltb b (utf8_length s))) [
      | inl e ↦ rw e (
          trim_bytes-Within fuel n b (drop_last s) (length-drop_last s fuel h)
            (omega (arith, length-drop_last s (length s) (omega arith), k)))
      | inr e ↦ rw e (stopped-Within n b s e k)
    ]

cut_chars-le : (n : ℕ) (s : Text) → length (cut_chars n s) ≤ n
cut_chars-le n s = ground (arith, length-take n s)

-- Whatever the budgets and the stem, the result is within both budgets.
pub fit-Within : (n b : ℕ) (s : Text) → Within n b (fit n b s)
unfolding fit utf8_length
fit-Within n b s = elim (Bool-cases (leb n 0 || leb b 0)) [
  | inl e ↦ rw e (omega arith)
  | inr e ↦ rw e (
      strip-Within is_space n b _ (
        rstrip-Within is_dot_space n b _ (
          trim_bytes-Within (length (cut_chars n s)) n b (cut_chars n s) (omega arith)
            (cut_chars-le n s))))
]

module _ {κ} (P : ℕ → Type κ) where
  All-drop_last : (s : Text) → All P s → All P (drop_last s)
  All-drop_last [] h = tt
  All-drop_last (c ∷ []) h = tt
  All-drop_last (c ∷ d ∷ s) (x, h) = (x, All-drop_last (d ∷ s) h)

  pub All-trim_bytes : (fuel b : ℕ) (s : Text) → All P s → All P (trim_bytes fuel b s)
  unfolding trim_bytes
  All-trim_bytes zero b s h = h
  All-trim_bytes (suc fuel) b s h = elim (Bool-cases (not (is_empty s) && ltb b (utf8_length s))) [
    | inl e ↦ rw e (All-trim_bytes fuel b (drop_last s) (All-drop_last s h))
    | inr e ↦ rw e h
  ]

  pub All-cut_chars : (n : ℕ) (s : Text) → All P s → All P (cut_chars n s)
  All-cut_chars n s h = elim (Bool-cases (ltb n (length s))) [
    | inl e ↦ rw e (All-take P n s h)
    | inr e ↦ rw e h
  ]

  pub All-fit : (n b : ℕ) (s : Text) → All P s → All P (fit n b s)
  unfolding fit
  All-fit n b s h = elim (Bool-cases (leb n 0 || leb b 0)) [
    | inl e ↦ rw e tt
    | inr e ↦ rw e (
        All-strip P is_space _ (
          All-rstrip P is_dot_space _
            (All-trim_bytes (length (cut_chars n s)) b (cut_chars n s) (All-cut_chars n s h))))
  ]
