-- ===== src/Examples/Tones.antt =====
-- Numbers in place of the samples of src/dsc_rx.cpp, at one sample to a bit.
use ubersdr_dsc.Base.{
  ℕ, ◌+◌, ◌<◌, ◌≤◌, ◌≡◌, refl, ap, sym, ◌∙◌, subst, arith, Bool, true, false, ltb, if◌then◌else◌,
  map, Option, some, List, [], ◌∷◌, ◌++◌, length, get_elem?,
}
use ubersdr_dsc.Base.Int.{ℤ, pos, pos_part}
use ubersdr_dsc.Base.Result.{
  Result, ok, out_of_bounds, out_of_range, overflow, in_bounds, ◌>>=◌, >>=-eq-ok,
}
use ubersdr_dsc.Rx.{Rx, Event, receive_bit}
use ubersdr_dsc.Rx.Config.{RateConfig}
use ubersdr_dsc.Demod.{Signals, Demod, tune, tuned, take_bit, clocked}
use ubersdr_dsc.Demod.Filter.{Products, FirFilter, filter, accumulate, set_elem, behind}
use ubersdr_dsc.Demod.Filter.Convolution.{length-set_elem, stored_there}
use ubersdr_dsc.Demod.Framing.{
  Framing, Heard, framing, seen, seen-receive_bit, receive_framing, receive_framings,
}
use ubersdr_dsc.Demod.Ready.{
  IsReady, Keeps, AllKept, elem_within, tuned-IsReady, receive_bit-AllKept,
}
use ubersdr_dsc.Demod.Bits.{sampled_bits, counted, later_bits, bits_from}
use ubersdr_dsc.Examples.{whole_numbers, any_time}

-- The last sample is what the filters give, and the mark tone decides.
abbrev last_sample : Products ℕ ℕ
last_sample = record { nothing = 0; plus = λ x y. y; scaled = λ x t. x }

abbrev pub on_off : Signals ℕ ℕ
on_off = record {
  reals = whole_numbers;
  products = last_sample;
  plus = ◌+◌;
  minus = λ x y. x;
  half = λ x. 0;
  greater = λ x y. ltb y x;
  pulled = λ x. x;
  one_later = λ x. x;
  at_middle = λ x n. true;
  less = λ x n. x;
  from_pair = λ i q. pos_part i;
  times = λ x e. x;
  conj = λ e. 0;
  abs = λ x. x;
  mag_sq = λ x. x;
  phase_nought = 0;
  advanced = λ rate x. x;
  turned = λ x. 1;
}

abbrev pub pair : Bool → ℤ × ℤ
pair b = (pos (if b then 1 else 0), pos 0)

-- A receiver whose mark filter has one tap.
pub record IsClear (d : Demod ℕ ℕ) : Type 0 where
  pub one_tap : d.lpf_mark.taps ≡ 1 ∷ []
  pub inside : d.lpf_mark.ptr < length d.lpf_mark.samples
  pub ready : IsReady d

filter_one_tap :
    (f : FirFilter ℕ ℕ) (x : ℕ)
    → f.taps ≡ 1 ∷ []
    → f.ptr < length f.samples
    → (filter last_sample f x).0 ≡ x
unfolding filter accumulate
filter_one_tap f x one inside =
    ap
      (λ (ts : List ℕ).
        accumulate last_sample (set_elem f.samples f.ptr x) ts f.ptr
          (behind (length f.samples) f.ptr) 0)
      one
    ∙ stored_there last_sample f.samples f.ptr x inside

filter_taps : (f : FirFilter ℕ ℕ) (x : ℕ) → (filter last_sample f x).1.taps ≡ f.taps
unfolding filter
filter_taps f x = refl

filter_inside :
    (f : FirFilter ℕ ℕ) (x : ℕ)
    → f.ptr < length f.samples
    → (filter last_sample f x).1.ptr < length (filter last_sample f x).1.samples
unfolding filter
filter_inside f x h =
    subst (λ (n : ℕ). behind (length f.samples) f.ptr < n) (sym (length-set_elem f.samples f.ptr x))
      (ground arith)

module _ (d : Demod ℕ ℕ) (clear : IsClear d) (b : Bool) (e : ℕ) where
  abbrev next : Demod ℕ ℕ
  next = tuned on_off any_time 0 d (if b then 1 else 0) e

  tuned_bit : next.rx.data_bit ≡ b
  unfolding tuned
  tuned_bit =
      ap (ltb 0) (filter_one_tap d.lpf_mark (if b then 1 else 0) clear.one_tap clear.inside)
      ∙ positive b
    where
      positive : (c : Bool) → ltb 0 (if c then 1 else 0) ≡ c
      positive true = refl
      positive false = refl

  tuned-IsClear : IsClear next
  unfolding tuned
  tuned-IsClear = record {
    one_tap = filter_taps d.lpf_mark (if b then 1 else 0) ∙ clear.one_tap;
    inside = filter_inside d.lpf_mark (if b then 1 else 0) clear.inside;
    ready = (tuned-IsReady on_off any_time 0 d (if b then 1 else 0) e clear.ready).0;
  }

lt_of_le : (a b c : ℕ) → a ≤ b → b < c → a < c
lt_of_le a b c h k = omega arith

clocked-IsClear :
    (t : Demod ℕ ℕ) (x : Rx ℕ)
    → IsClear t
    → Keeps t.rx x
    → IsClear (counted on_off any_time 0 (clocked on_off any_time 0 t x))
clocked-IsClear t x clear kept = record {
  one_tap = clear.one_tap;
  inside = clear.inside;
  ready = record {
    table = clear.ready.table ∙ ap (λ (r : RateConfig). r.exp_length) (sym kept.0);
    within =
        subst (λ (r : RateConfig). x.exp_idx < r.exp_length) (sym kept.0)
          (lt_of_le x.exp_idx t.rx.exp_idx t.rx.rate.exp_length kept.1 clear.ready.within);
  };
}

abbrev framing_of : Heard → Result Heard → Framing
framing_of h (ok g) = g.0
framing_of h _ = h.0

-- The bits after a bit that the framing takes.
later_bits-clocked :
    (t : Demod ℕ ℕ) (rest : Demod ℕ ℕ → List Bool) (bs : List Bool) (g : Heard)
    (r : Result (Rx ℕ × List (Event ℕ)))
    → ((x : Rx ℕ)
        → Keeps t.rx x
        → framing x ≡ g.0
        → rest (counted on_off any_time 0 (clocked on_off any_time 0 t x)) ≡ bs)
    → AllKept t.rx r
    → seen r ≡ ok g
    → later_bits on_off any_time 0 rest
        (r >>= λ step. ok (clocked on_off any_time 0 t step.0, step.1))
      ≡ bs
later_bits-clocked t rest bs g (ok (x, es)) ih kept e = ih x kept (ap (framing_of g) e)
later_bits-clocked t rest bs g out_of_bounds ih kept e = cc
later_bits-clocked t rest bs g out_of_range ih kept e = cc
later_bits-clocked t rest bs g overflow ih kept e = cc

-- Where the framing takes all the bits, the receiver samples the bits that the pairs stand for.
pub sampled_bits-pairs :
    (bs : List Bool) (d : Demod ℕ ℕ) (h : Heard)
    → IsClear d
    → receive_framings any_time 0 (framing d.rx) bs ≡ ok h
    → sampled_bits on_off any_time 0 d (map pair bs) ≡ bs
unfolding sampled_bits tune take_bit receive_framings
sampled_bits-pairs [] d h clear e = refl
sampled_bits-pairs (b ∷ bs) d h clear e =
    ap
      (λ (o : Option ℕ).
        bits_from on_off any_time 0 rest
          (in_bounds o >>= λ v. ok (tuned on_off any_time 0 d (if b then 1 else 0) v)))
      found.1
    ∙ ap (λ (c : Bool). c ∷ later_bits on_off any_time 0 rest (take_bit on_off any_time 0 t)) bit
    ∙ ap (b ∷◌) (
        later_bits-clocked t rest bs first.0
          (receive_bit whole_numbers any_time 0 t.rx t.rx.data_bit)
          (λ x kept f.
            sampled_bits-pairs bs (counted on_off any_time 0 (clocked on_off any_time 0 t x))
              second.0 (clocked-IsClear t x (tuned-IsClear d clear b found.0) kept)
              (ap (λ (g : Framing). receive_framings any_time 0 g bs) f ∙ second.1))
          (receive_bit-AllKept whole_numbers any_time 0 t.rx t.rx.data_bit)
          (seen-receive_bit any_time 0 whole_numbers t.rx t.rx.data_bit
            ∙ ap (receive_framing any_time 0 (framing t.rx)) bit
            ∙ ap (λ (f : Framing). receive_framing any_time 0 f b) same
            ∙ first.1))
  where
    rest : Demod ℕ ℕ → List Bool
    rest x = sampled_bits on_off any_time 0 x (map pair bs)

    found : (v : ℕ) × (get_elem? d.exp d.rx.exp_idx ≡ some v)
    found =
        elem_within d.exp d.rx.exp_idx
          (subst (λ (n : ℕ). d.rx.exp_idx < n) (sym clear.ready.table) clear.ready.within)

    t : Demod ℕ ℕ
    t = tuned on_off any_time 0 d (if b then 1 else 0) found.0

    bit : t.rx.data_bit ≡ b
    bit = tuned_bit d clear b found.0

    same : framing t.rx ≡ framing d.rx
    same = (tuned-IsReady on_off any_time 0 d (if b then 1 else 0) found.0 clear.ready).1

    first :
        (g : Heard) × (receive_framing any_time 0 (framing d.rx) b ≡ ok g)
        × ((receive_framings any_time 0 g.0 bs >>= λ others. ok (others.0, g.1 ++ others.1)) ≡ ok h)
    first = >>=-eq-ok (receive_framing any_time 0 (framing d.rx) b) _ e

    second :
        (g : Heard) × (receive_framings any_time 0 first.0.0 bs ≡ ok g)
        × (ok (g.0, first.0.1 ++ g.1) ≡ ok h)
    second = >>=-eq-ok (receive_framings any_time 0 first.0.0 bs) _ first.2
