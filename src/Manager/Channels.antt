-- ===== src/Manager/Channels.antt =====
-- Lists of channels of ChannelManager in src/channel_manager.cpp.
use ubersdr_dsc.Base.{
  ℕ, ◌+◌, ◌≤◌, ◌≡◌, sym, ◌∙◌, subst, arith, Bool, true, false, ◌||◌, if◌then◌else◌, if-true,
  if-false, Bool-cases, inl, inr, List, [], ◌∷◌, ◌++◌, map, All, All-append, All-weaken,
}
use ubersdr_dsc.Base.Int.{ℤ}
use ubersdr_dsc.Manager.{
  Channel, DecodedMessage, equals, update_channel, has_channel, erase_channel,
}
use ubersdr_dsc.Manager.Steps.{Running}

pub equals_sym : (a b : ℤ) → equals a b ≡ equals b a
unfolding equals
equals_sym a b = ground arith

module _ {R : Type 0} where
  -- The number of stored messages of a frequency.
  abbrev pub received_on : ℤ → List (DecodedMessage R) → ℕ
  received_on f [] = 0
  received_on f (dm ∷ rest) = (if equals f dm.frequency_hz then 1 else 0) + received_on f rest

  -- A channel whose counters belong to it, and count no more than is stored.
  pub record IsCounted (messages : List (DecodedMessage R)) (c : Channel R) : Type 0 where
    pub own_frequency : c.metrics.frequency_hz ≡ c.frequency_hz
    pub same_enabled : c.metrics.enabled ≡ c.enabled
    pub valid_among_all : c.metrics.valid_message_count ≤ c.metrics.message_count
    pub levels_counted : c.metrics.rssi_count ≡ c.metrics.message_count
    pub stored : c.metrics.message_count ≤ received_on c.frequency_hz messages

  -- Different frequencies.
  abbrev pub AreDistinct : List (Channel R) → Type 0
  AreDistinct [] = Unit
  AreDistinct (c ∷ cs) =
      All (λ (d : Channel R). equals d.frequency_hz c.frequency_hz ≡ false) cs × AreDistinct cs

  -- The messages that are counted: the stored ones and those that are underway.
  abbrev pub counted_messages : Running R → List (DecodedMessage R)
  counted_messages r = r.manager.messages ++ r.underway

  pub record IsConsistent (r : Running R) : Type 0 where
    pub distinct : AreDistinct r.manager.channels
    pub all_counted : All (IsCounted (counted_messages r)) r.manager.channels

  -- A change of one channel that keeps its frequency.
  module _ (f : ℤ) (change : Channel R → Channel R) where
    pub update-All :
        (P Q : Channel R → Type 0)
        → ((c : Channel R) → equals c.frequency_hz f ≡ true → P c → Q (change c))
        → ((c : Channel R) → P c → Q c)
        → (cs : List (Channel R)) → All P cs
        → All Q (update_channel f change cs)
    unfolding update_channel
    update-All P Q changed kept [] all = tt
    update-All P Q changed kept (c ∷ cs) all = elim (Bool-cases (equals c.frequency_hz f)) [
      | inl here ↦
          subst (All Q) (sym (if-true _ _ _ here))
            (changed c here all.0, All-weaken P Q kept cs all.1)
      | inr there ↦
          subst (All Q) (sym (if-false _ _ _ there))
            (kept c all.0, update-All P Q changed kept cs all.1)
    ]

    pub update-AreDistinct :
        ((c : Channel R) → (change c).frequency_hz ≡ c.frequency_hz)
        → (cs : List (Channel R)) → AreDistinct cs
        → AreDistinct (update_channel f change cs)
    unfolding update_channel
    update-AreDistinct same [] distinct = tt
    update-AreDistinct same (c ∷ cs) distinct = elim (Bool-cases (equals c.frequency_hz f)) [
      | inl here ↦ subst AreDistinct (sym (if-true _ _ _ here)) (
        subst (λ (g : ℤ). All (λ (d : Channel R). equals d.frequency_hz g ≡ false) cs)
            (sym (same c)) distinct.0,
        distinct.1,
      )
      | inr there ↦ subst AreDistinct (sym (if-false _ _ _ there)) (
        update-All (λ d. equals d.frequency_hz c.frequency_hz ≡ false)
            (λ d. equals d.frequency_hz c.frequency_hz ≡ false)
            (λ d _ h. subst (λ (g : ℤ). equals g c.frequency_hz ≡ false) (sym (same d)) h)
            (λ d h. h) cs distinct.0,
        update-AreDistinct same cs distinct.1,
      )
    ]

  pub has_channel_none :
      (f : ℤ) (cs : List (Channel R))
      → has_channel f cs ≡ false
      → All (λ (d : Channel R). equals d.frequency_hz f ≡ false) cs
  unfolding has_channel
  has_channel_none f [] h = tt
  has_channel_none f (c ∷ cs) h = elim (Bool-cases (equals c.frequency_hz f)) [
    | inl here ↦ absurd (wrong here h)
    | inr there ↦ (
      there,
      has_channel_none f cs (subst (λ (b : Bool). (b || has_channel f cs) ≡ false) there h),
    )
  ]
    where
      wrong :
          equals c.frequency_hz f ≡ true → (equals c.frequency_hz f || has_channel f cs) ≡ false → ⊥
      wrong e k = clash (subst (λ (b : Bool). (b || has_channel f cs) ≡ false) e k)
        where
          clash : true ≡ false → ⊥
          clash t = cc

  pub append-AreDistinct :
      (cs : List (Channel R)) (new : Channel R)
      → AreDistinct cs
      → All (λ (d : Channel R). equals d.frequency_hz new.frequency_hz ≡ false) cs
      → AreDistinct (cs ++ new ∷ [])
  append-AreDistinct [] new distinct other = (tt, tt)
  append-AreDistinct (c ∷ cs) new distinct other = (
    All-append (λ (d : Channel R). equals d.frequency_hz c.frequency_hz ≡ false) cs (new ∷ [])
        distinct.0 (equals_sym new.frequency_hz c.frequency_hz ∙ other.0, tt),
    append-AreDistinct cs new distinct.1 other.1,
  )

  pub erase-All :
      (P : Channel R → Type 0) (f : ℤ) (cs : List (Channel R))
      → All P cs
      → All P (erase_channel f cs)
  unfolding erase_channel
  erase-All P f [] all = tt
  erase-All P f (c ∷ cs) all = elim (Bool-cases (equals c.frequency_hz f)) [
    | inl here ↦ subst (All P) (sym (if-true _ _ _ here)) all.1
    | inr there ↦ subst (All P) (sym (if-false _ _ _ there)) (all.0, erase-All P f cs all.1)
  ]

  pub erase-AreDistinct :
      (f : ℤ) (cs : List (Channel R)) → AreDistinct cs → AreDistinct (erase_channel f cs)
  unfolding erase_channel
  erase-AreDistinct f [] distinct = tt
  erase-AreDistinct f (c ∷ cs) distinct = elim (Bool-cases (equals c.frequency_hz f)) [
    | inl here ↦ subst AreDistinct (sym (if-true _ _ _ here)) distinct.1
    | inr there ↦ subst AreDistinct (sym (if-false _ _ _ there)) (
      erase-All (λ d. equals d.frequency_hz c.frequency_hz ≡ false) f cs distinct.0,
      erase-AreDistinct f cs distinct.1,
    )
  ]

  pub map-All :
      (P : Channel R → Type 0) (change : Channel R → Channel R)
      → ((c : Channel R) → P c → P (change c))
      → (cs : List (Channel R)) → All P cs
      → All P (map change cs)
  map-All P change keep [] all = tt
  map-All P change keep (c ∷ cs) all = (keep c all.0, map-All P change keep cs all.1)
