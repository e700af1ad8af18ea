-- ===== src/Python/Laws.antt =====
-- Reading a dict after a write, and the texts that `lower` and `isalnum` leave alone.
use bybit_intraday_trading_b.Prelude.{
  ◌≡◌, refl, sym, ◌∙◌, inl, inr, String, false, str_eq, eq_iff, if◌then◌else◌, Bool-cases,
}
use bybit_intraday_trading_b.Python.{Value, Fields, end, field, get, get_or, put}

-- texts that the test tells apart differ
pub str_eq-apart : (s t : String) → str_eq s t ≡ false → s ≡ t → ⊥
str_eq-apart s t h e = cc (h, (eq_iff s t).1 e)

pub str_eq-apart_sym : (s t : String) → str_eq s t ≡ false → str_eq t s ≡ false
str_eq-apart_sym s t h = elim (Bool-cases (str_eq t s)) [
  | inl same ↦ absurd (str_eq-apart s t h (sym ((eq_iff t s).0 same)))
  | inr apart ↦ apart
]

-- `d[j] = v; d.get(k)`
pub get-put :
    (k j : String) (v : Value) (d : Fields)
    → get k (put j v d) ≡ (if str_eq j k then v else get k d)
unfolding get put
get-put k j v end = refl
get-put k j v (field i w d) = elim (Bool-cases (str_eq i j)) [
  | inl same ↦
      let at : i ≡ j = (eq_iff i j).0 same in
      rw same (elim (Bool-cases (str_eq j k)) [
        | inl hit ↦ rw (at, hit) refl
        | inr miss ↦ rw (at, miss) refl
      ])
  | inr other ↦
      rw (other, get-put k j v d)
        (elim (Bool-cases (str_eq j k)) [
          | inl hit ↦ elim (Bool-cases (str_eq i k)) [
            | inl also ↦
                let at : i ≡ j = (eq_iff i k).0 also ∙ sym ((eq_iff j k).0 hit) in
                cc (other, (eq_iff i j).1 at)
            | inr miss ↦ rw (hit, miss) refl
          ]
          | inr miss ↦ rw miss refl
        ])
]

-- `d[j] = v; d.get(k, e)`
pub get_or-put :
    (k j : String) (e : Value) (v : Value) (d : Fields)
    → get_or k e (put j v d) ≡ (if str_eq j k then v else get_or k e d)
unfolding get_or put
get_or-put k j e v end = refl
get_or-put k j e v (field i w d) = elim (Bool-cases (str_eq i j)) [
  | inl same ↦
      let at : i ≡ j = (eq_iff i j).0 same in
      rw same (elim (Bool-cases (str_eq j k)) [
        | inl hit ↦ rw (at, hit) refl
        | inr miss ↦ rw (at, miss) refl
      ])
  | inr other ↦
      rw (other, get_or-put k j e v d)
        (elim (Bool-cases (str_eq j k)) [
          | inl hit ↦ elim (Bool-cases (str_eq i k)) [
            | inl also ↦
                let at : i ≡ j = (eq_iff i k).0 also ∙ sym ((eq_iff j k).0 hit) in
                cc (other, (eq_iff i j).1 at)
            | inr miss ↦ rw (hit, miss) refl
          ]
          | inr miss ↦ rw miss refl
        ])
]
