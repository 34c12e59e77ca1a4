-- ===== src/Hub/Frequencies.antt =====
-- `parse_freq_list` of src/dsc_rx_from_ubersdr.cpp: the frequencies that the command line names, in a
-- text without zero bytes. `strtoll` stops at the greatest 64-bit number.
pub mod Written
use ubersdr_dsc.Base.{
  ℕ, ◌+◌, ◌-◌, ◌*◌, ◌^◌, ◌<◌, ◌≤◌, ◌==◌, ◌≡◌, refl, ap, sym, ◌∙◌, arith, ltb, leb, ◌&&◌, ◌||◌, Bool,
  true, false, Bool-cases, inl, inr, ==_iff, subst, if-true, if-false, if◌then◌else◌, Option, none,
  some, List, [], ◌∷◌,
}
use ubersdr_dsc.Base.Text.{Text, is_empty}

unfoldable pub split_commas : Text → List Text
split_commas [] = [] ∷ []
split_commas (c ∷ s) =
    let tokens = split_commas s in
    if c == b',' then [] ∷ tokens else elim tokens [ [] ↦ (c ∷ []) ∷ [] | t ∷ ts ↦ (c ∷ t) ∷ ts ]

abbrev pub is_blank : ℕ → Bool
is_blank c = c == 32 || c == 9

abbrev pub drop_blanks : Text → Text
drop_blanks [] = []
drop_blanks (c ∷ s) = let rest = drop_blanks s in if is_blank c then rest else c ∷ s

abbrev pub trim_end : Text → Text
trim_end [] = []
trim_end (c ∷ s) = let rest = trim_end s in if is_empty rest && is_blank c then [] else c ∷ rest

abbrev pub trimmed : Text → Text
trimmed s = trim_end (drop_blanks s)

-- The characters that `strtoll` passes over.
abbrev pub skip_spaces : Text → Text
skip_spaces [] = []
skip_spaces (c ∷ s) =
    let rest = skip_spaces s in if c == 32 || (leb 9 c && leb c 13) then rest else c ∷ s

-- A number of digits up to the end of the text.
abbrev pub read_digits_of : ℕ → Text → Option ℕ
read_digits_of n [] = some n
read_digits_of n (c ∷ s) =
    let rest = read_digits_of (n * 10 + (c - 48)) s in if leb 48 c && leb c 57 then rest else none

-- A number after its sign; more than zero, and nothing after it.
abbrev pub positive : Text → Option ℕ
positive [] = none
positive (c ∷ s) = elim (read_digits_of 0 (c ∷ s)) [
  | none ↦ none
  | some n ↦ let f = if ltb n (2 ^ 63) then n else 2 ^ 63 - 1 in if ltb 0 f then some f else none
]

unfoldable pub frequency_of : Text → Option ℕ
frequency_of token = elim (skip_spaces token) [
  | [] ↦ none
  | c ∷ s ↦ if c == b'-' then none else if c == b'+' then positive s else positive (c ∷ s)
]

-- The frequencies of the tokens that are one.
unfoldable pub frequencies_of : List Text → List ℕ
unfolding frequency_of
frequencies_of [] = []
frequencies_of (token ∷ tokens) =
    let others = frequencies_of tokens in
    elim (frequency_of (trimmed token)) [ none ↦ others | some f ↦ f ∷ others ]

-- `std::sort`, and `std::unique` with the `erase` after it.
unfoldable pub insert_sorted : ℕ → List ℕ → List ℕ
insert_sorted x [] = x ∷ []
insert_sorted x (y ∷ ys) =
    let later = insert_sorted x ys in if ltb y x then y ∷ later else x ∷ y ∷ ys

unfoldable pub sort : List ℕ → List ℕ
unfolding insert_sorted
sort [] = []
sort (x ∷ xs) = insert_sorted x (sort xs)

unfoldable pub unique : List ℕ → List ℕ
unique [] = []
unique (x ∷ []) = x ∷ []
unique (x ∷ y ∷ ys) = let rest = unique (y ∷ ys) in if x == y then rest else x ∷ rest

unfoldable pub parse_freq_list : Text → List ℕ
unfolding split_commas frequencies_of sort unique
parse_freq_list s = unique (sort (frequencies_of (split_commas s)))

-- Numbers that do not fall, and numbers that rise, from one on.
abbrev Climbs : ℕ → List ℕ → Type 0
Climbs low [] = Unit
Climbs low (x ∷ xs) = (low ≤ x) × Climbs x xs

abbrev pub Rises : ℕ → List ℕ → Type 0
Rises low [] = Unit
Rises low (x ∷ xs) = (low < x) × Rises x xs

abbrev pub has : ℕ → List ℕ → Bool
has f [] = false
has f (x ∷ xs) = f == x || has f xs

swapped : (a b c : Bool) → (a || (b || c)) ≡ (b || (a || c))
swapped true true c = refl
swapped true false c = refl
swapped false b c = refl

doubled : (a b : Bool) → (a || b) ≡ (a || (a || b))
doubled true b = refl
doubled false b = refl

has-insert_sorted : (f x : ℕ) (ys : List ℕ) → has f (insert_sorted x ys) ≡ (f == x || has f ys)
unfolding insert_sorted
has-insert_sorted f x [] = refl
has-insert_sorted f x (y ∷ ys) = elim (Bool-cases (ltb y x)) [
  | inl e ↦
      ap (has f) (if-true _ _ (ltb y x) e)
      ∙ ap (λ (b : Bool). f == y || b) (has-insert_sorted f x ys)
      ∙ swapped (f == y) (f == x) (has f ys)
  | inr e ↦ ap (has f) (if-false _ _ (ltb y x) e)
]

has-sort : (f : ℕ) (xs : List ℕ) → has f (sort xs) ≡ has f xs
unfolding sort
has-sort f [] = refl
has-sort f (x ∷ xs) =
    has-insert_sorted f x (sort xs) ∙ ap (λ (b : Bool). f == x || b) (has-sort f xs)

has-unique : (f : ℕ) (xs : List ℕ) → has f (unique xs) ≡ has f xs
unfolding unique
has-unique f [] = refl
has-unique f (x ∷ []) = refl
has-unique f (x ∷ y ∷ ys) = elim (Bool-cases (x == y)) [
  | inl e ↦
      ap (has f) (if-true _ _ (x == y) e)
      ∙ has-unique f (y ∷ ys)
      ∙ subst (λ (z : ℕ). has f (y ∷ ys) ≡ (f == z || has f (y ∷ ys))) (sym ((==_iff x y).0 e))
          (doubled (f == y) (has f ys))
  | inr e ↦
      ap (has f) (if-false _ _ (x == y) e) ∙ ap (λ (b : Bool). f == x || b) (has-unique f (y ∷ ys))
]

insert_sorted-Climbs :
    (low x : ℕ) (ys : List ℕ) → low ≤ x → Climbs low ys → Climbs low (insert_sorted x ys)
unfolding insert_sorted
insert_sorted-Climbs low x [] h k = (h, tt)
insert_sorted-Climbs low x (y ∷ ys) h k = elim (Bool-cases (ltb y x)) [
  | inl e ↦
      subst (Climbs low) (sym (if-true _ _ (ltb y x) e))
        (k.0, insert_sorted-Climbs y x ys (ground arith) k.1)
  | inr e ↦ subst (Climbs low) (sym (if-false _ _ (ltb y x) e)) (h, (ground arith, k.1))
]

sort-Climbs : (xs : List ℕ) → Climbs 0 (sort xs)
unfolding sort
sort-Climbs [] = tt
sort-Climbs (x ∷ xs) = insert_sorted-Climbs 0 x (sort xs) (omega arith) (sort-Climbs xs)

unique-Rises :
    (x : ℕ) (xs : List ℕ)
    → Climbs x xs
    → (rest : List ℕ) × (unique (x ∷ xs) ≡ x ∷ rest) × Rises x rest
unfolding unique
unique-Rises x [] h = ([], refl, tt)
unique-Rises x (y ∷ ys) h = elim (Bool-cases (x == y)) [
  | inl e ↦
      let others = unique-Rises y ys h.1 in
      let same = (==_iff x y).0 e in
      (
        others.0,
        if-true _ _ (x == y) e ∙ others.1 ∙ ap (λ (z : ℕ). z ∷ others.0) (sym same),
        subst (λ (z : ℕ). Rises z others.0) (sym same) others.2,
      )
  | inr e ↦
      let others = unique-Rises y ys h.1 in
      (y ∷ others.0, if-false _ _ (x == y) e ∙ ap (x ∷◌) others.1, (ground arith, others.2))
]

-- Numbers, each greater than the one before.
abbrev pub IsRising : List ℕ → Type 0
IsRising [] = Unit
IsRising (x ∷ xs) = Rises x xs

unique-IsRising : (xs : List ℕ) → Climbs 0 xs → IsRising (unique xs)
unfolding unique
unique-IsRising [] h = tt
unique-IsRising (x ∷ xs) h = let all = unique-Rises x xs h.1 in subst IsRising (sym all.1) all.2

-- The list of frequencies rises, so that it has none twice, and has exactly the frequencies that the
-- tokens between the commas name.
pub parse_freq_list-IsRising :
    (s : Text)
    → IsRising (parse_freq_list s)
      × ((f : ℕ) → has f (parse_freq_list s) ≡ has f (frequencies_of (split_commas s)))
unfolding parse_freq_list
parse_freq_list-IsRising s = (
  unique-IsRising (sort (frequencies_of (split_commas s)))
      (sort-Climbs (frequencies_of (split_commas s))),
  λ f.
      has-unique f (sort (frequencies_of (split_commas s)))
      ∙ has-sort f (frequencies_of (split_commas s)),
)
