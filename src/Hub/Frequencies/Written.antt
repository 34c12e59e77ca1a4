-- ===== src/Hub/Frequencies/Written.antt =====
-- Lists of frequencies as a command line has them, and what `parse_freq_list` of
-- src/dsc_rx_from_ubersdr.cpp reads of them.
use native.Mathlib.Nat.{pow-suc}
use ubersdr_dsc.Base.{
  ℕ, suc, ◌+◌, ◌-◌, ◌*◌, ◌^◌, ◌<◌, ◌==◌, ◌≡◌, refl, ap, sym, ◌∙◌, arith, ltb, leb, ◌&&◌, ◌||◌, Bool,
  true, false, if-true, if-false, if◌then◌else◌, Option, none, some, List, [], ◌∷◌, ◌++◌, map,
  length, All,
}
use ubersdr_dsc.Base.Text.{Text, is_empty}
use ubersdr_dsc.Hub.Frequencies.{
  split_commas, is_blank, drop_blanks, trim_end, trimmed, skip_spaces, read_digits_of, positive,
  frequency_of, frequencies_of, parse_freq_list, has, IsRising, parse_freq_list-IsRising,
}

pub data Sign : Type 0 where
  unsigned : Sign
  plus : Sign
  minus : Sign

-- A token: blanks (a space or a tab), a sign, decimal digits, what may follow them, and blanks.
pub record Entry : Type 0 where
  pub before : List Bool
  pub sign : Sign
  pub first_digit : ℕ
  pub digits : List ℕ
  pub junk : Option ℕ
  pub after : List Bool

abbrev pub sign_text : Sign → Text
sign_text unsigned = []
sign_text plus = b'+' ∷ []
sign_text minus = b'-' ∷ []

abbrev pub junk_text : Option ℕ → Text
junk_text none = []
junk_text (some c) = c ∷ []

abbrev pub blanks : List Bool → Text
blanks bs = map (λ (b : Bool). if b then 32 else 9) bs

abbrev pub digits_text : List ℕ → Text
digits_text ds = map (λ d. 48 + d) ds

-- The characters of a token but for the blanks.
abbrev pub core : Entry → Text
core e = sign_text e.sign ++ (digits_text (e.first_digit ∷ e.digits) ++ junk_text e.junk)

abbrev pub token : Entry → Text
token e = blanks e.before ++ (core e ++ blanks e.after)

-- Tokens with a comma between each two.
abbrev pub line : List Entry → Text
line [] = []
line (e ∷ []) = token e
line (e ∷ e' ∷ es) = token e ++ (b',' ∷ line (e' ∷ es))

-- The number that digits are, the first one the highest.
abbrev pub number : List ℕ → ℕ
number [] = 0
number (d ∷ ds) = d * 10 ^ length ds + number ds

-- The frequency that a number is: a positive one, at most the greatest of 64 bits.
abbrev pub in_range : ℕ → Option ℕ
in_range n = if n == 0 then none else if ltb n (2 ^ 63) then some n else some (2 ^ 63 - 1)

-- The frequency that a token names: none after a minus or with something after the digits.
abbrev pub named : Sign → Option ℕ → ℕ → Option ℕ
named minus junk n = none
named sign (some c) n = none
named sign none n = in_range n

abbrev pub names : List Entry → List ℕ
names [] = []
names (e ∷ es) =
    let others = names es in
    elim (named e.sign e.junk (number (e.first_digit ∷ e.digits))) [
      | none ↦ others
      | some f ↦ f ∷ others
    ]

-- A character that is no digit, no comma, no blank.
abbrev pub IsJunk : Option ℕ → Type 0
IsJunk none = Unit
IsJunk (some c) = ((leb 48 c && leb c 57) ≡ false) × ((c == b',') ≡ false) × (is_blank c ≡ false)

abbrev pub IsEntry : Entry → Type 0
IsEntry e = All (λ d. d < 10) (e.first_digit ∷ e.digits) × IsJunk e.junk

-- Neither comma nor blank.
abbrev Plain : ℕ → Type 0
Plain c = ((c == b',') ≡ false) × (is_blank c ≡ false)

All-append : (P : ℕ → Type 0) (xs ys : Text) → All P xs → All P ys → All P (xs ++ ys)
All-append P [] ys h k = k
All-append P (x ∷ xs) ys h k = (h.0, All-append P xs ys h.1 k)

Plain-digit : (d : ℕ) → d < 10 → Plain (48 + d)
Plain-digit d h = ground arith

digits-Plain : (ds : List ℕ) → All (λ d. d < 10) ds → All Plain (digits_text ds)
digits-Plain [] h = tt
digits-Plain (d ∷ ds) h = (Plain-digit d h.0, digits-Plain ds h.1)

sign-Plain : (s : Sign) → All Plain (sign_text s)
sign-Plain unsigned = tt
sign-Plain plus = ((refl, refl), tt)
sign-Plain minus = ((refl, refl), tt)

junk-Plain : (j : Option ℕ) → IsJunk j → All Plain (junk_text j)
junk-Plain none h = tt
junk-Plain (some c) h = ((h.1, h.2), tt)

core-Plain : (e : Entry) → IsEntry e → All Plain (core e)
core-Plain e h = All-append Plain (sign_text e.sign) _ (sign-Plain e.sign) (
    All-append Plain (digits_text (e.first_digit ∷ e.digits)) _
      (digits-Plain (e.first_digit ∷ e.digits) h.0) (junk-Plain e.junk h.1))

-- Blanks are dropped at both ends.
drop_blanks-blanks : (bs : List Bool) (s : Text) → drop_blanks (blanks bs ++ s) ≡ drop_blanks s
drop_blanks-blanks [] s = refl
drop_blanks-blanks (true ∷ bs) s = drop_blanks-blanks bs s
drop_blanks-blanks (false ∷ bs) s = drop_blanks-blanks bs s

trim_end-blanks : (bs : List Bool) → trim_end (blanks bs) ≡ []
trim_end-blanks [] = refl
trim_end-blanks (true ∷ bs) = rw (trim_end-blanks bs) refl
trim_end-blanks (false ∷ bs) = rw (trim_end-blanks bs) refl

and_false : (a b : Bool) → b ≡ false → (a && b) ≡ false
and_false true b h = h
and_false false b h = refl

trim_end-Plain : (s : Text) (bs : List Bool) → All Plain s → trim_end (s ++ blanks bs) ≡ s
trim_end-Plain [] bs h = trim_end-blanks bs
trim_end-Plain (c ∷ s) bs h =
    if-false _ _ _ (and_false (is_empty (trim_end (s ++ blanks bs))) (is_blank c) h.0.1)
    ∙ ap (c ∷◌) (trim_end-Plain s bs h.1)

drop_blanks-plain : (c : ℕ) (s : Text) → is_blank c ≡ false → drop_blanks (c ∷ s) ≡ c ∷ s
drop_blanks-plain c s h = if-false _ _ (is_blank c) h

-- No token starts with a blank after its blanks.
drop_blanks-core :
    (s : Sign) (d : ℕ) (rest : Text)
    → d < 10
    → drop_blanks (sign_text s ++ ((48 + d) ∷ rest)) ≡ sign_text s ++ ((48 + d) ∷ rest)
drop_blanks-core unsigned d rest h = drop_blanks-plain (48 + d) rest (Plain-digit d h).1
drop_blanks-core plus d rest h = refl
drop_blanks-core minus d rest h = refl

append_assoc : (xs ys zs : Text) → (xs ++ ys) ++ zs ≡ xs ++ (ys ++ zs)
append_assoc [] ys zs = refl
append_assoc (x ∷ xs) ys zs = ap (x ∷◌) (append_assoc xs ys zs)

trimmed-token : (e : Entry) → IsEntry e → trimmed (token e) ≡ core e
trimmed-token e h =
    ap trim_end (
      drop_blanks-blanks e.before (core e ++ blanks e.after)
      ∙ ap drop_blanks (append_assoc (sign_text e.sign) _ (blanks e.after))
      ∙ drop_blanks-core e.sign e.first_digit _ h.0.0
      ∙ sym (append_assoc (sign_text e.sign) _ (blanks e.after)))
    ∙ trim_end-Plain (core e) e.after (core-Plain e h)

is_digit_char : (d : ℕ) → d < 10 → (leb 48 (48 + d) && leb (48 + d) 57) ≡ true
is_digit_char d h = ground arith

read_one : (n d : ℕ) → n * 10 + (48 + d - 48) ≡ n * 10 + d
read_one n d = omega arith

shifted : (n d k r : ℕ) → (n * 10 + d) * 10 ^ k + r ≡ n * 10 ^ suc k + (d * 10 ^ k + r)
shifted n d k r = rw (pow-suc 10 k) (grind arith)

-- Digits up to the end are their number; with something after them that is no digit, none.
read_digits_of-digits :
    (n : ℕ) (ds : List ℕ)
    → All (λ d. d < 10) ds
    → read_digits_of n (digits_text ds) ≡ some (n * 10 ^ length ds + number ds)
read_digits_of-digits n [] h = ap some (omega arith)
read_digits_of-digits n (d ∷ ds) h =
    if-true _ _ _ (is_digit_char d h.0)
    ∙ ap (λ (k : ℕ). read_digits_of k (digits_text ds)) (read_one n d)
    ∙ read_digits_of-digits (n * 10 + d) ds h.1
    ∙ ap some (shifted n d (length ds) (number ds))

read_digits_of-junk :
    (n : ℕ) (ds : List ℕ) (c : ℕ)
    → All (λ d. d < 10) ds
    → (leb 48 c && leb c 57) ≡ false
    → read_digits_of n (digits_text ds ++ (c ∷ [])) ≡ none
read_digits_of-junk n [] c h k = if-false _ _ _ k
read_digits_of-junk n (d ∷ ds) c h k =
    if-true _ _ _ (is_digit_char d h.0) ∙ read_digits_of-junk (n * 10 + (48 + d - 48)) ds c h.1 k

clamped :
    (n : ℕ)
    → (let f = if ltb n (2 ^ 63) then n else 2 ^ 63 - 1 in if ltb 0 f then some f else none)
      ≡ in_range n
clamped n = ground arith

positive-some :
    (c : ℕ) (s : Text) (n : ℕ) → read_digits_of 0 (c ∷ s) ≡ some n → positive (c ∷ s) ≡ in_range n
positive-some c s n e = rw (e, positive) (clamped n)

positive-none : (c : ℕ) (s : Text) → read_digits_of 0 (c ∷ s) ≡ none → positive (c ∷ s) ≡ none
positive-none c s e = rw (e, positive) refl

append_nil : (s : Text) → s ++ [] ≡ s
append_nil [] = refl
append_nil (c ∷ s) = ap (c ∷◌) (append_nil s)

-- `strtoll` and what follows it, on what comes after the sign.
positive-digits :
    (d : ℕ) (ds : List ℕ) (junk : Option ℕ)
    → All (λ x. x < 10) (d ∷ ds)
    → IsJunk junk
    → positive (digits_text (d ∷ ds) ++ junk_text junk) ≡ named unsigned junk (number (d ∷ ds))
positive-digits d ds none h k =
    ap positive (append_nil (digits_text (d ∷ ds)))
    ∙ positive-some (48 + d) (digits_text ds) (number (d ∷ ds))
        (read_digits_of-digits 0 (d ∷ ds) h ∙ ap some (omega arith))
positive-digits d ds (some c) h k =
    positive-none (48 + d) (digits_text ds ++ (c ∷ [])) (read_digits_of-junk 0 (d ∷ ds) c h k.0)

no_space : (d : ℕ) → d < 10 → (48 + d == 32 || (leb 9 (48 + d) && leb (48 + d) 13)) ≡ false
no_space d h = ground arith

no_minus : (d : ℕ) → d < 10 → (48 + d == b'-') ≡ false
no_minus d h = ground arith

no_plus : (d : ℕ) → d < 10 → (48 + d == b'+') ≡ false
no_plus d h = ground arith

frequency_of-unsigned :
    (c : ℕ) (s : Text)
    → skip_spaces (c ∷ s) ≡ c ∷ s
    → (c == b'-') ≡ false
    → (c == b'+') ≡ false
    → frequency_of (c ∷ s) ≡ positive (c ∷ s)
unfolding frequency_of
frequency_of-unsigned c s e m p = rw (e, m, p, frequency_of) refl

frequency_of-core :
    (s : Sign) (d : ℕ) (ds : List ℕ) (junk : Option ℕ)
    → All (λ x. x < 10) (d ∷ ds)
    → IsJunk junk
    → frequency_of (sign_text s ++ (digits_text (d ∷ ds) ++ junk_text junk))
      ≡ named s junk (number (d ∷ ds))
unfolding frequency_of
frequency_of-core unsigned d ds junk h k =
    frequency_of-unsigned (48 + d) (digits_text ds ++ junk_text junk)
      (if-false _ _ _ (no_space d h.0)) (no_minus d h.0) (no_plus d h.0)
    ∙ positive-digits d ds junk h k
frequency_of-core plus d ds none h k = positive-digits d ds none h k
frequency_of-core plus d ds (some c) h k = positive-digits d ds (some c) h k
frequency_of-core minus d ds junk h k = refl

-- The tokens of a line are its entries.
split_commas-plain : (s : Text) → All (λ c. (c == b',') ≡ false) s → split_commas s ≡ s ∷ []
unfolding split_commas
split_commas-plain [] h = refl
split_commas-plain (c ∷ s) h = rw (h.0, split_commas-plain s h.1) refl

split_commas-comma :
    (s rest : Text)
    → All (λ c. (c == b',') ≡ false) s
    → split_commas (s ++ (b',' ∷ rest)) ≡ s ∷ split_commas rest
unfolding split_commas
split_commas-comma [] rest h = refl
split_commas-comma (c ∷ s) rest h = rw (h.0, split_commas-comma s rest h.1) refl

no_comma : (s : Text) → All Plain s → All (λ c. (c == b',') ≡ false) s
no_comma [] h = tt
no_comma (c ∷ s) h = (h.0.0, no_comma s h.1)

blanks-no_comma : (bs : List Bool) → All (λ c. (c == b',') ≡ false) (blanks bs)
blanks-no_comma [] = tt
blanks-no_comma (true ∷ bs) = (refl, blanks-no_comma bs)
blanks-no_comma (false ∷ bs) = (refl, blanks-no_comma bs)

token-no_comma : (e : Entry) → IsEntry e → All (λ c. (c == b',') ≡ false) (token e)
token-no_comma e h =
    All-append _ (blanks e.before) _ (blanks-no_comma e.before)
      (All-append _ (core e) _ (no_comma (core e) (core-Plain e h)) (blanks-no_comma e.after))

frequency_of-token :
    (e : Entry)
    → IsEntry e
    → frequency_of (trimmed (token e)) ≡ named e.sign e.junk (number (e.first_digit ∷ e.digits))
frequency_of-token e h =
    ap frequency_of (trimmed-token e h)
    ∙ frequency_of-core e.sign e.first_digit e.digits e.junk h.0 h.1

frequencies_of-cons :
    (t : Text) (ts : List Text) (o : Option ℕ) (others : List ℕ)
    → frequency_of (trimmed t) ≡ o
    → frequencies_of ts ≡ others
    → frequencies_of (t ∷ ts) ≡ elim o as (λ _. List ℕ) [ none ↦ others | some f ↦ f ∷ others ]
unfolding frequencies_of
frequencies_of-cons t ts o others e k =
    rw (e, frequencies_of)
      (ap (λ (l : List ℕ). elim o as (λ _. List ℕ) [ none ↦ l | some f ↦ f ∷ l ]) k)

nil_frequencies : frequencies_of [] ≡ []
unfolding frequencies_of
nil_frequencies = refl

no_frequencies : frequencies_of (split_commas []) ≡ []
unfolding frequencies_of split_commas frequency_of
no_frequencies = refl

frequencies_of-line :
    (es : List Entry) → All IsEntry es → frequencies_of (split_commas (line es)) ≡ names es
frequencies_of-line [] h = no_frequencies
frequencies_of-line (e ∷ []) h =
    ap frequencies_of (split_commas-plain (token e) (token-no_comma e h.0))
    ∙ frequencies_of-cons (token e) [] _ [] (frequency_of-token e h.0) nil_frequencies
frequencies_of-line (e ∷ e' ∷ es) h =
    ap frequencies_of (split_commas-comma (token e) (line (e' ∷ es)) (token-no_comma e h.0))
    ∙ frequencies_of-cons (token e) (split_commas (line (e' ∷ es))) _ (names (e' ∷ es))
        (frequency_of-token e h.0) (frequencies_of-line (e' ∷ es) h.1)

-- Of tokens with commas between them, each made of blanks, a sign or none, decimal digits, at most
-- one character that is no digit, comma or blank, and blanks, the list of frequencies has exactly
-- the numbers above zero, or 2 ^ 63 - 1 for a greater one, of the tokens with no minus and nothing
-- behind their digits; it rises, so that it has none twice.
pub parse_freq_list-line :
    (es : List Entry)
    → All IsEntry es
    → IsRising (parse_freq_list (line es))
      × ((f : ℕ) → has f (parse_freq_list (line es)) ≡ has f (names es))
parse_freq_list-line es h =
    let (rising, same) = parse_freq_list-IsRising (line es) in
    (rising, λ f. same f ∙ ap (has f) (frequencies_of-line es h))
