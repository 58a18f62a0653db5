-- ===== src/SuperIo/Winbond/Fans/Laws.antt =====
-- What updateTachometers and readTachometer of WinbondW836x.cpp keep, and where they leave their
-- arrays.
use fake_smc3_with_plugins.Prelude.{
  for_loop-reaches, if-both, ==→eq, for_loop-invariant_below, for_loop, ltb, ◌==◌, if◌then◌else◌,
  lt→ltb, get_or, ℕ, ◌+◌, ◌≤◌, ◌<◌, ◌≡◌, refl, sym, ap, ◌∙◌, subst, Bool, true, false, not, ◌||◌,
  arith,
}
use fake_smc3_with_plugins.SuperIo.Bus.{Bus, Monitor}
use fake_smc3_with_plugins.SuperIo.Winbond.Bits.{fan_offset, next_offset}
use fake_smc3_with_plugins.SuperIo.Winbond.Bits.Offsets.{
  fan_offset-set_offset, next_offset_near, fan_offset-lt,
}
use fake_smc3_with_plugins.SuperIo.Winbond.Fans.{
  Winbond, WinbondWorld, nct6681, store_fan, mark_obsolete, bank_read, read_divisors,
  update_nuvoton_fan, update_fan, update_winbond_fans, update_tachometers, winbond_read_tachometer,
  winbond_tachometer, winbond_tachometer_bank,
}

-- An exponent below 8, at most one step away.
pub record IsNear (old new : ℕ) : Type 0 where
  pub small : new < 8
  pub not_above : new ≤ old + 1
  pub not_below : old ≤ new + 1

next_offset-IsNear : (count offset : ℕ) → offset < 8 → IsNear offset (next_offset count offset)
next_offset-IsNear count offset h =
    let (s, a, b) = next_offset_near count offset h in
    record { small = s; not_above = a; not_below = b }

or_false : (b : Bool) → (b || false) ≡ b
or_false true = refl
or_false false = refl

or_true : (b : Bool) → (b || true) ≡ true
or_true true = refl
or_true false = refl

store_fan-faulted : (i v : ℕ) (own : Winbond) → i < 5 → (store_fan i v own).faulted ≡ own.faulted
unfolding store_fan
store_fan-faulted i v own h = ap (λ b. own.faulted || not b) (lt→ltb i 5 h) ∙ or_false own.faulted

mark_obsolete-faulted :
    (i : ℕ) (own : Winbond) → i < 5 → (mark_obsolete i own).faulted ≡ own.faulted
unfolding mark_obsolete store_fan
mark_obsolete-faulted i own h = store_fan-faulted i 0 own h

store_fan-outside : (v : ℕ) (own : Winbond) → (store_fan 5 v own).faulted ≡ true
unfolding store_fan
store_fan-outside v own = or_true own.faulted

store_fan-stays :
    (i v : ℕ) (own : Winbond) → own.faulted ≡ true → (store_fan i v own).faulted ≡ true
unfolding store_fan
store_fan-stays i v own h = ap (λ b. b || not (ltb i 5)) h

IsNear-if :
    {old : ℕ} (b : Bool) (x y : ℕ)
    → ((b ≡ true) → IsNear old x)
    → IsNear old y
    → IsNear old (if b then x else y)
IsNear-if true x y h k = h refl
IsNear-if false x y h k = k

module _ {H : Type 0} (bus : Bus H) where
  -- After the loop over at most five fans, the exponent of the divisor of every fan is below 8 and
  -- at most one step away from what it was, whatever the chip answers.
  pub for_loop-update_fan-IsNear :
      (n bits j : ℕ) (m : Monitor) (w : WinbondWorld H)
      → n ≤ 5
      → j < 5
      → IsNear (fan_offset bits j) (fan_offset (for_loop n 0 (update_fan bus bits m) (bits, w)).0 j)
  unfolding update_fan
  for_loop-update_fan-IsNear n bits j m w few inside =
      for_loop-invariant_below
        (λ (x : ℕ × WinbondWorld H). IsNear (fan_offset bits j) (fan_offset x.0 j)) n 0
        (update_fan bus bits m) (bits, w)
        (λ i x below near. stepped i x.0 x.1.0 x.1.1 (omega (arith, below)) near)
        (record { small = fan_offset-lt bits j; not_above = omega arith; not_below = omega arith })
    where
      stepped :
          (i new_bits : ℕ) (own : Winbond) (h : H)
          → i < 5
          → IsNear (fan_offset bits j) (fan_offset new_bits j)
          → IsNear
              (fan_offset bits j)
              (fan_offset (update_fan bus bits m i (new_bits, (own, h))).0 j)
      stepped i new_bits own h outside near =
          let (count, h1) =
            bank_read bus (get_or winbond_tachometer_bank i 0) (get_or winbond_tachometer i 0) m
              h in
          let next = next_offset count (fan_offset bits i) in
          let close = next_offset-IsNear count (fan_offset bits i) (fan_offset-lt bits i) in
          subst (IsNear (fan_offset bits j))
            (sym (fan_offset-set_offset new_bits next i j close.small outside inside))
            (IsNear-if (j == i) next (fan_offset new_bits j)
              (λ hit. subst (λ x. IsNear (fan_offset bits x) next) (sym (==→eq j i hit)) close)
              near)

  update_nuvoton_fan-kept :
      (m : Monitor) (i : ℕ) (w : WinbondWorld H)
      → i < 5
      → (update_nuvoton_fan bus m i w).0.faulted ≡ w.0.faulted
  unfolding update_nuvoton_fan store_fan
  update_nuvoton_fan-kept m i (own, h) inside = store_fan-faulted i 0 own inside

  update_fan-kept :
      (bits : ℕ) (m : Monitor) (i : ℕ) (x : ℕ × WinbondWorld H)
      → i < 5
      → (update_fan bus bits m i x).1.0.faulted ≡ x.1.0.faulted
  unfolding update_fan store_fan
  update_fan-kept bits m i (new_bits, (own, h)) inside = store_fan-faulted i 0 own inside

  update_tachometers-kept :
      (m : Monitor) (w : WinbondWorld H)
      → w.0.fan_limit ≤ 5
      → (update_tachometers bus m w).0.faulted ≡ w.0.faulted
  unfolding update_tachometers update_winbond_fans
  update_tachometers-kept m (own, h) few =
      if-both (λ (x : WinbondWorld H). x.0.faulted ≡ own.faulted) (ltb m.model nct6681)
        (update_winbond_fans bus m (own, h))
        (for_loop own.fan_limit 0 (update_nuvoton_fan bus m) (own, h))
        (let (bits, h1) = read_divisors bus m h in
          for_loop-invariant_below (λ (x : ℕ × WinbondWorld H). x.1.0.faulted ≡ own.faulted)
            own.fan_limit 0 (update_fan bus bits m) (bits, (own, h1))
            (λ i x below kept. update_fan-kept bits m i x (omega (arith, below)) ∙ kept) refl)
        (for_loop-invariant_below (λ (x : WinbondWorld H). x.0.faulted ≡ own.faulted) own.fan_limit
          0 (update_nuvoton_fan bus m) (own, h)
          (λ i x below kept. update_nuvoton_fan-kept m i x (omega (arith, below)) ∙ kept) refl)

  -- With at most five fans, reading the speed of one of them leaves no array.
  pub winbond_read_tachometer_inside :
      (index : ℕ) (m : Monitor) (w : WinbondWorld H)
      → w.0.fan_limit ≤ 5
      → index < 5
      → w.0.faulted ≡ false
      → (winbond_read_tachometer bus index m w).1.0.faulted ≡ false
  unfolding winbond_read_tachometer
  winbond_read_tachometer_inside index m w few inside sound =
      let used = if get_or w.0.fan_obsolete index false then update_tachometers bus m w else w in
      mark_obsolete-faulted index used.0 inside
      ∙ if-both (λ (x : WinbondWorld H). x.0.faulted ≡ false) (get_or w.0.fan_obsolete index false)
          (update_tachometers bus m w) w (update_tachometers-kept m w few ∙ sound) sound

  -- With a sixth fan, as the code counts for most chips of Nuvoton, the update of the speeds writes
  -- behind the arrays.
  pub update_tachometers_outside :
      (m : Monitor) (w : WinbondWorld H)
      → 5 < w.0.fan_limit
      → (update_tachometers bus m w).0.faulted ≡ true
  unfolding update_tachometers update_winbond_fans update_fan update_nuvoton_fan store_fan
  update_tachometers_outside m (own, h) many =
      if-both (λ (x : WinbondWorld H). x.0.faulted ≡ true) (ltb m.model nct6681)
        (update_winbond_fans bus m (own, h))
        (for_loop own.fan_limit 0 (update_nuvoton_fan bus m) (own, h))
        (let (bits, h1) = read_divisors bus m h in
          for_loop-reaches (λ (x : ℕ × WinbondWorld H). x.1.0.faulted ≡ true) own.fan_limit 0 5
            (update_fan bus bits m) (bits, (own, h1)) (λ x. store_fan-outside 0 x.1.0)
            (λ i x h. store_fan-stays i 0 x.1.0 h) (omega arith) (omega arith))
        (for_loop-reaches (λ (x : WinbondWorld H). x.0.faulted ≡ true) own.fan_limit 0 5
          (update_nuvoton_fan bus m) (own, h) (λ x. store_fan-outside 0 x.0)
          (λ i x h. store_fan-stays i 0 x.0 h) (omega arith) (omega arith))
