-- ===== src/Message/Short.antt =====
-- The reads of `DSCMessage::decode` of src/dsc.cpp on a message that is too short for the id of the
-- station that sends, or on a distress alert too short for its position.
use ubersdr_dsc.Base.{
  ℕ, zero, suc, ◌+◌, ◌*◌, ◌≤◌, ◌<◌, ◌!=◌, ◌==◌, ◌≡◌, ◌∙◌, ◌⊎◌, some, refl, arith, ltb, leb,
  if◌then◌else◌, true, false, List, [], length, length-append, get_elem?, get_elem?_in_range,
  get_elem?_beyond, Bool-cases, inl, inr, ltb→lt,
}
use ubersdr_dsc.Base.Text.{Text}
use ubersdr_dsc.Base.Result.{Result, ok, out_of_bounds, out_of_range, overflow, ◌>>=◌}
use ubersdr_dsc.Message.{Message}
use ubersdr_dsc.Message.Decode.{decode, dsc_message}
use ubersdr_dsc.Message.Digits.{
  byte, symbols_to_digits, two_digits, format_address, char_at, substr,
}
use ubersdr_dsc.Message.Bounds.{two_digits-long}
use ubersdr_dsc.Message.Head.{
  Cursor, decode_format, decode_address, decode_self_id, read_address, read_category,
  decode_telecommands, decode_distress_id, in_distress,
}
use ubersdr_dsc.Tables.Values.{distress_alert, all_ships, routine}
use ubersdr_dsc.Message.Body.{read_distress, decode_payload}

-- A run ends in a read outside of an array, or gives what is as `P` says.
abbrev Cut {ℓ} : {A : Type ℓ} → (A → Type 0) → Result A → Type 0
Cut P (ok a) = P a
Cut P out_of_bounds = Unit
Cut P out_of_range = ⊥
Cut P overflow = ⊥

-- A run that can give nothing.
abbrev Lost {ℓ} : {A : Type ℓ} → Result A → Type 0
Lost r = Cut (λ a. ⊥) r

Cut-bind {ℓ κ} :
    {A : Type ℓ} {B : Type κ} (P : A → Type 0) (Q : B → Type 0) (r : Result A) (f : A → Result B)
    → Cut P r
    → ((a : A) → P a → Cut Q (f a))
    → Cut Q (r >>= f)
Cut-bind P Q (ok a) f h k = k a h
Cut-bind P Q out_of_bounds f h k = tt
Cut-bind P Q out_of_range f h k = h
Cut-bind P Q overflow f h k = h

Lost-bind {ℓ κ} :
    {A : Type ℓ} {B : Type κ} (Q : B → Type 0) (r : Result A) (f : A → Result B)
    → Lost r
    → Cut Q (r >>= f)
Lost-bind Q r f h = Cut-bind (λ a. ⊥) Q r f h λ a k. absurd k

Lost-eq {ℓ} : {A : Type ℓ} (r : Result A) → Lost r → r ≡ out_of_bounds
Lost-eq (ok a) h = absurd h
Lost-eq out_of_bounds h = refl
Lost-eq out_of_range h = absurd h
Lost-eq overflow h = absurd h

module _ (bytes : List ℕ) where
  byte-Cut : (i : ℕ) → Cut (λ x. i < length bytes) (byte bytes i)
  byte-Cut i = elim (Bool-cases (ltb i (length bytes))) [
    | inl p ↦
        let (x, e) = get_elem?_in_range bytes i (ltb→lt i (length bytes) p) in
        rw e (ltb→lt i (length bytes) p)
    | inr p ↦ rw (get_elem?_beyond bytes i (ground arith)) tt
  ]

  digits-Lost :
      (k start : ℕ) → length bytes < start + suc k → Lost (symbols_to_digits bytes start (suc k))
  unfolding symbols_to_digits
  digits-Lost zero start h = Cut-bind _ _ (byte bytes start) _ (byte-Cut start) λ x p. omega arith
  digits-Lost (suc k) start h = Cut-bind _ _ (byte bytes start) _ (byte-Cut start) λ x p.
      Lost-bind _ (symbols_to_digits bytes (start + 1) (suc k)) _
        (digits-Lost k (start + 1) (omega arith))

  decode_format-Cut : (c : Cursor) → Cut (λ d. d.idx ≡ c.idx + 2) (decode_format bytes c)
  unfolding decode_format
  decode_format-Cut c =
      Cut-bind _ _ (byte bytes c.idx) _ (byte-Cut c.idx)
        λ a p. Cut-bind _ _ (byte bytes (c.idx + 1)) _ (byte-Cut (c.idx + 1)) λ b q. refl

  read_category-Cut : (c : Cursor) → Cut (λ d. c.idx ≤ d.idx) (read_category bytes c)
  read_category-Cut c = Cut-bind _ _ (byte bytes c.idx) _ (byte-Cut c.idx) λ a p. omega arith

  read_address-Lost : (c : Cursor) → length bytes < c.idx + 5 → Lost (read_address bytes c)
  read_address-Lost c h = Lost-bind _ (symbols_to_digits bytes c.idx 5) _ (digits-Lost 4 c.idx h)

  -- The address is lost, or the index stays or rises.
  decode_address-Cut :
      (c : Cursor) → length bytes < c.idx + 5 → Cut (λ d. c.idx ≤ d.idx) (decode_address bytes c)
  unfolding decode_address
  decode_address-Cut c h = elim (Bool-cases (c.message.format_specifier != distress_alert)) [
    | inr alert ↦ rw alert (omega arith)
    | inl other ↦ elim (Bool-cases (c.message.format_specifier != all_ships)) [
      | inl one ↦
          rw (other, one)
            (Lost-bind _ (read_address bytes c) (read_category bytes) (read_address-Lost c h))
      | inr all ↦
          rw (other, all)
            (read_category-Cut (record c { message = record c.message { has_address = false } }))
    ]
  ]

  decode_self_id-Lost : (c : Cursor) → length bytes < c.idx + 5 → Lost (decode_self_id bytes c)
  unfolding decode_self_id
  decode_self_id-Lost c h = Lost-bind _ (symbols_to_digits bytes c.idx 5) _ (digits-Lost 4 c.idx h)

  decode-Lost : (m : Message) → length bytes < 7 → Lost (decode bytes m)
  unfolding decode
  decode-Lost m h = Cut-bind _ _ (decode_format bytes _) _ (decode_format-Cut _) λ c p.
      Cut-bind _ _ (decode_address bytes c) _ (decode_address-Cut c (omega arith))
        λ d q. Lost-bind _ (decode_self_id bytes d) _ (decode_self_id-Lost d (omega arith))

  digits-Cut :
      (k start : ℕ) → Cut (λ (s : Text). 2 * k ≤ length s) (symbols_to_digits bytes start k)
  unfolding symbols_to_digits
  digits-Cut zero start = omega arith
  digits-Cut (suc k) start = Cut-bind _ _ (byte bytes start) _ (byte-Cut start) λ x p.
      Cut-bind _ _ (symbols_to_digits bytes (start + 1) k) _ (digits-Cut k (start + 1))
        λ s q. omega (arith, length-append (two_digits x) s, two_digits-long x)

char_at-Cut : (s : Text) (i : ℕ) → i < length s → Cut (λ c. Unit) (char_at s i)
char_at-Cut s i h = elim (Bool-cases (i == length s)) [
  | inl p ↦ rw p tt
  | inr p ↦ let (x, e) = get_elem?_in_range s i h in rw (p, e) tt
]

substr-Cut : (s : Text) (from n : ℕ) → from ≤ length s → Cut (λ t. Unit) (substr s from n)
substr-Cut s from n h = elim (Bool-cases (ltb (length s) from)) [
  | inl p ↦ absurd (omega (arith, ltb→lt (length s) from p))
  | inr p ↦ rw p tt
]

-- A text of ten characters or more is an address.
format_address-Cut : (s : Text) → 10 ≤ length s → Cut (λ t. Unit) (format_address s)
unfolding format_address
format_address-Cut s h =
    Cut-bind (λ c. Unit) _ (if leb 10 (length s) then char_at s 9 else ok b'0') _ ninth
      λ tenth p.
        Cut-bind (λ t. Unit) _ (substr s 0 9) _ (substr-Cut s 0 9 (omega arith))
          λ head q.
            Cut-bind (λ t. Unit) _ (if tenth != b'0' then substr s 9 1 else ok []) _ (last tenth)
              λ t r. tt
  where
    ninth : Cut (λ c. Unit) (if leb 10 (length s) then char_at s 9 else ok b'0')
    ninth = elim (Bool-cases (leb 10 (length s))) [
      | inl x ↦ rw x (char_at-Cut s 9 h)
      | inr x ↦ rw x tt
    ]

    last : (c : ℕ) → Cut (λ t. Unit) (if c != b'0' then substr s 9 1 else ok [])
    last c = elim (Bool-cases (c != b'0')) [
      | inl x ↦ rw x (substr-Cut s 9 1 (omega arith))
      | inr x ↦ rw x tt
    ]

module _ (bytes : List ℕ) where
  -- The id of a distress alert's station, and where the reading goes on.
  alert_self_id-Cut :
      (c : Cursor)
      → Cut
          (λ d.
            (d.idx ≡ c.idx + 5)
            × (d.message.format_specifier ≡ c.message.format_specifier)
            × (d.message.category ≡ c.message.category))
          (decode_self_id bytes c)
  unfolding decode_self_id
  alert_self_id-Cut c =
      Cut-bind _ _ (symbols_to_digits bytes c.idx 5) _ (digits-Cut bytes 5 c.idx) λ s p.
        Cut-bind _ _ (format_address s) _ (format_address-Cut s (omega arith))
          λ t q. (refl, refl, refl)

  read_distress-Lost : (c : Cursor) → length bytes < c.idx + 6 → Lost (read_distress bytes c)
  unfolding read_distress
  read_distress-Lost c h = Cut-bind _ _ (byte bytes c.idx) _ (byte-Cut bytes c.idx) λ a p.
      Lost-bind _ (symbols_to_digits bytes (c.idx + 1) 5) _
        (digits-Lost bytes 4 (c.idx + 1) (omega arith))

  -- What a distress alert's parts up to the payload leave.
  abbrev AlertAt : ℕ → Cursor → Type 0
  AlertAt i c =
      (c.idx ≡ i) × (c.message.format_specifier ≡ distress_alert) × (c.message.category ≡ routine)

  alert_format-Cut :
      (m : Message)
      → get_elem? bytes 0 ≡ some distress_alert
      → m.category ≡ routine
      → Cut (AlertAt 2) (decode_format bytes (record { idx = 0; message = m }))
  unfolding decode_format
  alert_format-Cut m e k =
      rw e (Cut-bind _ _ (byte bytes 1) _ (byte-Cut bytes 1) λ b q. (refl, refl, k))

  alert_address-Cut : (c : Cursor) → AlertAt 2 c → Cut (AlertAt 2) (decode_address bytes c)
  unfolding decode_address
  alert_address-Cut c h = rw h.1 (h.0, refl, h.2)

  alert_telecommands-Cut :
      (c : Cursor) → AlertAt 7 c → Cut (AlertAt 7) (decode_telecommands bytes c)
  unfolding decode_telecommands
  alert_telecommands-Cut c h = rw h.1 (h.0, refl, h.2)

  alert_distress_id-Cut : (c : Cursor) → AlertAt 7 c → Cut (AlertAt 7) (decode_distress_id bytes c)
  unfolding decode_distress_id
  alert_distress_id-Cut c h = elim (Bool-cases (in_distress c.message)) [
    | inl x ↦ absurd (ground arith)
    | inr x ↦ rw x h
  ]

  alert_payload-Lost :
      (c : Cursor) → length bytes < 13 → AlertAt 7 c → Lost (decode_payload bytes c)
  unfolding decode_payload
  alert_payload-Lost c l h =
      let alert : (c.message.format_specifier == distress_alert) ≡ true = ground arith in
      rw alert (read_distress-Lost c (omega arith))

  alert-Lost :
      (m : Message)
      → get_elem? bytes 0 ≡ some distress_alert
      → m.category ≡ routine
      → length bytes < 13
      → Lost (decode bytes m)
  unfolding decode
  alert-Lost m e k l = Cut-bind _ _ (decode_format bytes _) _ (alert_format-Cut m e k) λ c p.
      Cut-bind _ _ (decode_address bytes c) _ (alert_address-Cut c p) λ d q.
        Cut-bind _ (λ x. ⊥) (decode_self_id bytes d) _ (alert_self_id-Cut d)
          λ x r.
            Cut-bind _ _ (decode_telecommands bytes x) _
              (alert_telecommands-Cut x (omega arith, r.1 ∙ q.1, r.2 ∙ q.2))
              λ y s.
                Cut-bind _ _ (decode_distress_id bytes y) _ (alert_distress_id-Cut y s)
                  λ z t. Lost-bind _ (decode_payload bytes z) _ (alert_payload-Lost z l t)

-- Fewer than seven bytes, or a distress alert of fewer than thirteen.
abbrev pub IsShort : List ℕ → Type 0
IsShort bytes =
    (length bytes < 7) ⊎ ((get_elem? bytes 0 ≡ some distress_alert) × (length bytes < 13))

-- Of a short message, a byte past the last is read.
pub dsc_message-IsShort :
    (time_to_iso8601 : ℕ → Text) (bytes : List ℕ) (timestamp : ℕ)
    → IsShort bytes
    → dsc_message time_to_iso8601 bytes timestamp ≡ out_of_bounds
unfolding dsc_message
dsc_message-IsShort time_to_iso8601 bytes timestamp (inl h) = Lost-eq _ (decode-Lost bytes _ h)
dsc_message-IsShort time_to_iso8601 bytes timestamp (inr h) =
    Lost-eq _ (alert-Lost bytes _ h.0 refl h.1)
