-- ===== src/Python/Order/Laws.antt =====
-- Python's order of text is total, so `sorted` does not depend on the order of its list.
use text.Mathlib.TextEquality.{Char-path}
use mathlib.Core.List.{Permᴰ}
use bybit_intraday_trading_b.Prelude.{
  ◌≡◌, refl, ap, ◌∙◌, inl, inr, String, true, false, List, [], ◌∷◌, arith, if◌then◌else◌,
  Bool-cases,
}
use bybit_intraday_trading_b.Python.Order.{text_less, insert_text, sorted_texts}

text_less_asym : (s t : String) → text_less s t ≡ true → text_less t s ≡ false
unfolding text_less
text_less_asym String.[] String.[] h = refl
text_less_asym String.[] (String.◌∷◌ d t) h = refl
text_less_asym (String.◌∷◌ c s) String.[] h = cc
text_less_asym (String.◌∷◌ c s) (String.◌∷◌ d t) h = elim (Bool-cases (text_less s t)) [
  | inl less ↦ ground (arith, h, text_less_asym s t less)
  | inr other ↦ ground (arith, h, other)
]

text_less_trans :
    (r s t : String) → text_less r s ≡ true → text_less s t ≡ true → text_less r t ≡ true
unfolding text_less
text_less_trans String.[] String.[] t h k = cc
text_less_trans String.[] (String.◌∷◌ d s) String.[] h k = cc
text_less_trans String.[] (String.◌∷◌ d s) (String.◌∷◌ e t) h k = refl
text_less_trans (String.◌∷◌ c r) String.[] t h k = cc
text_less_trans (String.◌∷◌ c r) (String.◌∷◌ d s) String.[] h k = cc
text_less_trans (String.◌∷◌ c r) (String.◌∷◌ d s) (String.◌∷◌ e t) h k =
    elim (Bool-cases (text_less r s)) [
      | inl first ↦ elim (Bool-cases (text_less s t)) [
        | inl second ↦ ground (arith, h, k, text_less_trans r s t first second)
        | inr other ↦ ground (arith, h, k, other)
      ]
      | inr other ↦ ground (arith, h, k, other)
    ]

text_less_total : (s t : String) → text_less s t ≡ false → text_less t s ≡ false → s ≡ t
unfolding text_less
text_less_total String.[] String.[] h k = refl
text_less_total String.[] (String.◌∷◌ d t) h k = cc
text_less_total (String.◌∷◌ c s) String.[] h k = cc
text_less_total (String.◌∷◌ c s) (String.◌∷◌ d t) h k =
    let first : c ≡ d = Char-path c d (ground (arith, h, k)) in
    let rest : s ≡ t = text_less_total s t (ground (arith, h, k)) (ground (arith, h, k)) in
    cc (first, rest)

-- what stands between two texts: `t` is not before `u`, and `u` is before `v`
less_between :
    (t u v : String) → text_less t u ≡ false → text_less t v ≡ true → text_less u v ≡ true
less_between t u v h k = elim (Bool-cases (text_less u t)) [
  | inl before ↦ text_less_trans u t v before k
  | inr after ↦ let same : t ≡ u = text_less_total t u h after in rw (← same) k
]

insert_text-two :
    (s t : String) (rest : List String)
    → (if text_less t s then t ∷ (s ∷ rest) else s ∷ (t ∷ rest))
      ≡ (if text_less s t then s ∷ (t ∷ rest) else t ∷ (s ∷ rest))
insert_text-two s t rest = elim (Bool-cases (text_less t s)) [
  | inl after ↦ rw (after, text_less_asym t s after) refl
  | inr other ↦ elim (Bool-cases (text_less s t)) [
    | inl before ↦ rw (other, before) refl
    | inr same ↦ let equal : s ≡ t = text_less_total s t same other in rw (other, same) (cc equal)
  ]
]

insert_text-insert_text :
    (s t : String) (l : List String)
    → insert_text s (insert_text t l) ≡ insert_text t (insert_text s l)
unfolding insert_text
insert_text-insert_text s t [] = insert_text-two s t []
insert_text-insert_text s t (u ∷ l) = elim (Bool-cases (text_less u s)) [
  | inl s_later ↦ elim (Bool-cases (text_less u t)) [
    | inl t_later ↦ rw (s_later, t_later, s_later) (ap (λ m. u ∷ m) (insert_text-insert_text s t l))
    | inr t_first ↦
        let before : text_less t s ≡ true = less_between u t s t_first s_later in
        rw (s_later, t_first, before, s_later) refl
  ]
  | inr s_first ↦ elim (Bool-cases (text_less u t)) [
    | inl t_later ↦
        let before : text_less s t ≡ true = less_between u s t s_first t_later in
        rw (s_first, t_later, before, s_first) refl
    | inr t_first ↦ rw (s_first, t_first, s_first) (insert_text-two s t (u ∷ l))
  ]
]

-- `sorted` does not depend on the order of its list
pub sorted_texts-Perm : {xs ys : List String} → Permᴰ xs ys → sorted_texts xs ≡ sorted_texts ys
unfolding sorted_texts
sorted_texts-Perm Permᴰ.nil = refl
sorted_texts-Perm (Permᴰ.cons same p) = cc (same, sorted_texts-Perm p)
sorted_texts-Perm (Permᴰ.swap {a} {b} {l = l} first second) =
    insert_text-insert_text a b (sorted_texts l) ∙ cc (first, second)
sorted_texts-Perm (Permᴰ.trans p q) = sorted_texts-Perm p ∙ sorted_texts-Perm q
