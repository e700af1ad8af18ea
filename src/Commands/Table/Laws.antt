-- ===== src/Commands/Table/Laws.antt =====
-- Slots and active rows of the table of backend/execution_command_storage.py.
use bybit_intraday_trading_b.Prelude.{
  ℕ, ◌+◌, ◌≤◌, ◌≡◌, refl, ap, inl, inr, Bool, true, false, not, ◌&&◌, ◌||◌, Option, none, some,
  List, [], ◌∷◌, ◌++◌, All, arith, if◌then◌else◌, Bool-cases, Option-cases,
}
use bybit_intraday_trading_b.Commands.Types.{is_active, is_available, Command}
use bybit_intraday_trading_b.Commands.Table.{
  same_slot, occupies, is_occupied, used_again, slots_unique, count_active, update_where,
}

-- how many active rows have the slot
abbrev pub in_slot : ℕ → List Command → ℕ
in_slot n [] = 0
in_slot n (c ∷ rows) = if occupies n c then in_slot n rows + 1 else in_slot n rows

in_slot-unoccupied : (n : ℕ) (rows : List Command) → is_occupied n rows ≡ false → in_slot n rows ≡ 0
unfolding is_occupied
in_slot-unoccupied n [] h = refl
in_slot-unoccupied n (c ∷ rows) h = elim (Bool-cases (occupies n c)) [
  | inl mine ↦ cc (rw mine at h)
  | inr other ↦ rw other (in_slot-unoccupied n rows (rw other at h))
]

free_after :
    (n : ℕ) (active : Bool) (slot : Option ℕ) (rows : List Command) (later : Bool)
    → active && same_slot slot n ≡ true
    → not (used_again active slot rows) && later ≡ true
    → is_occupied n rows ≡ false
free_after n true (some m) rows later mine h =
    let same : m ≡ n = ground (arith, mine) in rw (← same) (ground (arith, h))
free_after n true none rows later mine h = cc
free_after n false slot rows later mine h = cc

in_slot_unique : (n : ℕ) (rows : List Command) → slots_unique rows ≡ true → in_slot n rows ≤ 1
unfolding slots_unique
in_slot_unique n [] h = omega arith
in_slot_unique n (c ∷ rows) h =
    let later = in_slot_unique n rows (ground (arith, h)) in
    elim (Bool-cases (occupies n c)) [
      | inl mine ↦
          let none_left =
            in_slot-unoccupied n rows
              (free_after n (is_active c.state) c.slot_id rows (slots_unique rows) mine h) in
          rw (mine, none_left) (omega arith)
      | inr other ↦ rw other later
    ]

-- the slots that `claim_execution_command` takes
abbrev pub HasSlot : Command → Type 0
HasSlot c = (n : ℕ) × (c.slot_id ≡ some n) × (1 ≤ n) × (n ≤ 3)

-- An active row has a slot from 1 to 3, and an available row has no owner.
abbrev pub IsSound : Command → Type 0
IsSound c =
    (is_active c.state ≡ true → HasSlot c) × (is_available c.state ≡ true → c.owner_id ≡ none)

abbrev slots_total : List Command → ℕ
slots_total rows = in_slot 1 rows + in_slot 2 rows + in_slot 3 rows

active-in_slot :
    (c : Command) (rows : List Command)
    → is_active c.state ≡ true
    → HasSlot c
    → slots_total (c ∷ rows) ≡ slots_total rows + 1
active-in_slot c rows active (n, slot, low, high) = rw (active, slot) (ground arith)

count_active-slots : (rows : List Command) → All IsSound rows → count_active rows ≤ slots_total rows
unfolding count_active
count_active-slots [] h = omega arith
count_active-slots (c ∷ rows) h = elim (Bool-cases (is_active c.state)) [
  | inl active ↦
      let more : count_active (c ∷ rows) ≡ count_active rows + 1 = rw active refl in
      omega (arith, more, count_active-slots rows h.1, active-in_slot c rows active (h.0.0 active))
  | inr idle ↦ rw idle (ground (arith, count_active-slots rows h.1))
]

-- sound rows with unique slots: at most three of them are active
pub count_active-max :
    (rows : List Command) → All IsSound rows → slots_unique rows ≡ true → count_active rows ≤ 3
count_active-max rows sound unique = omega (
  arith,
  count_active-slots rows sound,
  in_slot_unique 1 rows unique,
  in_slot_unique 2 rows unique,
  in_slot_unique 3 rows unique,
)

pub update_where-All :
    {P : Command → Type 0} (condition : Command → Bool) (change : Command → Command)
    (rows : List Command)
    → ((c : Command) → P c → condition c ≡ true → P (change c))
    → All P rows
    → All P (update_where condition change rows)
unfolding update_where
update_where-All condition change [] f h = tt
update_where-All condition change (c ∷ rows) f h = elim (Bool-cases (condition c)) [
  | inl met ↦ rw met (f c h.0 met, update_where-All condition change rows f h.1)
  | inr unmet ↦ rw unmet (h.0, update_where-All condition change rows f h.1)
]

is_occupied-append :
    (n : ℕ) (rows : List Command) (c : Command)
    → is_active c.state ≡ false
    → is_occupied n (rows ++ (c ∷ [])) ≡ is_occupied n rows
unfolding is_occupied
is_occupied-append n [] c idle = rw idle refl
is_occupied-append n (d ∷ rows) c idle =
    ap (λ b. occupies n d || b) (is_occupied-append n rows c idle)

used_again-append :
    (active : Bool) (slot : Option ℕ) (rows : List Command) (c : Command)
    → is_active c.state ≡ false
    → used_again active slot (rows ++ (c ∷ [])) ≡ used_again active slot rows
used_again-append active none rows c idle = refl
used_again-append active (some n) rows c idle =
    ap (λ b. active && b) (is_occupied-append n rows c idle)

-- a row that is not active takes no slot
pub slots_unique-append :
    (rows : List Command) (c : Command)
    → is_active c.state ≡ false
    → slots_unique (rows ++ (c ∷ [])) ≡ slots_unique rows
unfolding slots_unique
slots_unique-append [] c idle = elim (Option-cases c.slot_id) [
  | inl none_yet ↦ rw none_yet refl
  | inr (n, slot) ↦ rw (slot, idle) refl
]
slots_unique-append (d ∷ rows) c idle =
    rw
      (used_again-append (is_active d.state) d.slot_id rows c idle, slots_unique-append rows c idle)
      refl
