-- ===== src/Manager/Counters.antt =====
-- The counters of a channel of src/channel_manager.cpp under each change.
use ubersdr_dsc.Base.{
  ◌+◌, ◌≡◌, refl, ap, sym, subst, arith, Bool, true, false, if◌then◌else◌, if-true, if-false,
  Bool-cases, inl, inr, List, [], ◌∷◌, ◌++◌, map, All,
}
use ubersdr_dsc.Base.Int.{ℤ}
use ubersdr_dsc.Manager.{
  Channel, DecodedMessage, Levels, equals, enabled_as, runs_as, connected_as, after_session,
  counted,
}
use ubersdr_dsc.Manager.Channels.{received_on, IsCounted, AreDistinct}

module _ {R : Type 0} where
  pub map-AreDistinct :
      (change : Channel R → Channel R)
      → ((c : Channel R) → (change c).frequency_hz ≡ c.frequency_hz)
      → (cs : List (Channel R)) → AreDistinct cs
      → AreDistinct (map change cs)
  map-AreDistinct change same [] distinct = tt
  map-AreDistinct change same (c ∷ cs) distinct =
      (mapped cs distinct.0, map-AreDistinct change same cs distinct.1)
    where
      mapped :
          (ds : List (Channel R))
          → All (λ (d : Channel R). equals d.frequency_hz c.frequency_hz ≡ false) ds
          → All
              (λ (d : Channel R). equals d.frequency_hz (change c).frequency_hz ≡ false)
              (map change ds)
      mapped [] all = tt
      mapped (d ∷ ds) all = (rw (same d, same c) all.0, mapped ds all.1)

  received_on-append :
      (f : ℤ) (old : List (DecodedMessage R)) (dm : DecodedMessage R)
      → received_on f (old ++ dm ∷ [])
        ≡ received_on f old + (if equals f dm.frequency_hz then 1 else 0)
  received_on-append f [] dm = omega arith
  received_on-append f (m ∷ old) dm = omega (arith, received_on-append f old dm)

  pub received_on-both :
      (f : ℤ) (ms ns : List (DecodedMessage R))
      → received_on f (ms ++ ns) ≡ received_on f ms + received_on f ns
  received_on-both f [] ns = omega arith
  received_on-both f (m ∷ ms) ns = omega (arith, received_on-both f ms ns)

  -- A message that goes from the ones underway to the stored ones.
  pub stored-IsCounted :
      (ms before others : List (DecodedMessage R)) (dm : DecodedMessage R) (c : Channel R)
      → IsCounted (ms ++ (before ++ dm ∷ others)) c
      → IsCounted ((ms ++ dm ∷ []) ++ (before ++ others)) c
  stored-IsCounted ms before others dm c ok = record {
    own_frequency = ok.own_frequency;
    same_enabled = ok.same_enabled;
    valid_among_all = ok.valid_among_all;
    levels_counted = ok.levels_counted;
    stored = omega (
      arith,
      ok.stored,
      received_on-both c.frequency_hz ms (before ++ dm ∷ others),
      received_on-both c.frequency_hz before (dm ∷ others),
      received_on-both c.frequency_hz (ms ++ dm ∷ []) (before ++ others),
      received_on-both c.frequency_hz before others,
      received_on-append c.frequency_hz ms dm,
    );
  }

  -- One more message: the counters that stay, and those of its channel.
  pub more_stored :
      (old : List (DecodedMessage R)) (dm : DecodedMessage R) (c : Channel R)
      → IsCounted old c
      → IsCounted (old ++ dm ∷ []) c
  more_stored old dm c ok = record {
    own_frequency = ok.own_frequency;
    same_enabled = ok.same_enabled;
    valid_among_all = ok.valid_among_all;
    levels_counted = ok.levels_counted;
    stored = omega (arith, ok.stored, received_on-append c.frequency_hz old dm);
  }

  pub counted-IsCounted :
      (levels : Levels R) (old : List (DecodedMessage R)) (dm : DecodedMessage R) (c : Channel R)
      → equals c.frequency_hz dm.frequency_hz ≡ true
      → IsCounted old c
      → IsCounted (old ++ dm ∷ []) (counted levels dm c)
  unfolding counted
  counted-IsCounted levels old dm c here ok = record {
    own_frequency = ok.own_frequency;
    same_enabled = ok.same_enabled;
    valid_among_all = ground (arith, ok.valid_among_all);
    levels_counted = omega (arith, ok.levels_counted);
    stored = ground (arith, ok.stored, here, received_on-append c.frequency_hz old dm);
  }

  pub enabled-IsCounted :
      (ms : List (DecodedMessage R)) (on : Bool) (c : Channel R)
      → IsCounted ms c
      → IsCounted ms (enabled_as on c)
  unfolding enabled_as
  enabled-IsCounted ms on c ok = record {
    own_frequency = ok.own_frequency;
    same_enabled = refl;
    valid_among_all = ok.valid_among_all;
    levels_counted = ok.levels_counted;
    stored = ok.stored;
  }

  pub connected-IsCounted :
      (ms : List (DecodedMessage R)) (on : Bool) (c : Channel R)
      → IsCounted ms c
      → IsCounted ms (connected_as on c)
  unfolding connected_as
  connected-IsCounted ms on c ok = record {
    own_frequency = ok.own_frequency;
    same_enabled = ok.same_enabled;
    valid_among_all = ok.valid_among_all;
    levels_counted = ok.levels_counted;
    stored = ok.stored;
  }

  pub runs-IsCounted :
      (ms : List (DecodedMessage R)) (on : Bool) (c : Channel R)
      → IsCounted ms c
      → IsCounted ms (runs_as on c)
  unfolding runs_as
  runs-IsCounted ms on c ok = record {
    own_frequency = ok.own_frequency;
    same_enabled = ok.same_enabled;
    valid_among_all = ok.valid_among_all;
    levels_counted = ok.levels_counted;
    stored = ok.stored;
  }

  pub ended-IsCounted :
      (ms : List (DecodedMessage R)) (c : Channel R)
      → IsCounted ms c
      → IsCounted ms (after_session c)
  unfolding after_session connected_as
  ended-IsCounted ms c ok = elim (Bool-cases c.should_run) [
    | inl runs ↦ subst (IsCounted ms) (sym (if-true _ _ c.should_run runs)) (record {
      own_frequency = ok.own_frequency;
      same_enabled = ok.same_enabled;
      valid_among_all = ok.valid_among_all;
      levels_counted = ok.levels_counted;
      stored = ok.stored;
    })
    | inr stopped ↦ subst (IsCounted ms) (sym (if-false _ _ c.should_run stopped)) (record {
      own_frequency = ok.own_frequency;
      same_enabled = ok.same_enabled;
      valid_among_all = ok.valid_among_all;
      levels_counted = ok.levels_counted;
      stored = ok.stored;
    })
  ]

  pub ended-frequency : (c : Channel R) → (after_session c).frequency_hz ≡ c.frequency_hz
  unfolding after_session connected_as
  ended-frequency c = elim (Bool-cases c.should_run) [
    | inl runs ↦ ap (λ (d : Channel R). d.frequency_hz) (if-true _ _ c.should_run runs)
    | inr stopped ↦ ap (λ (d : Channel R). d.frequency_hz) (if-false _ _ c.should_run stopped)
  ]
