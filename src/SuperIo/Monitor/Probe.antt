-- ===== src/SuperIo/Monitor/Probe.antt =====
-- What the search for a chip in SuperIOFamily.cpp finds.
use fake_smc3_with_plugins.Prelude.{if◌then◌else◌, ℕ, zero, suc, ◌+◌, ◌≡◌, refl, Bool, true, false}
use fake_smc3_with_plugins.SuperIo.Bus.{Monitor, Chip, select_port}
use fake_smc3_with_plugins.SuperIo.Monitor.{World, probe_from, probe}

module _ {H : Type 0} (chip : Chip H) (P : Monitor → Type 0)
    (accepted : (m : Monitor) (h : H)
      → (chip.probe_port m h).0 ≡ true
      → P (chip.probe_port m h).1) where
  probe_from-accepted :
      (n i : ℕ) (m : Monitor) (h : H)
      → (probe_from chip n i (m, h)).0 ≡ true
      → P (probe_from chip n i (m, h)).1.0
  unfolding probe_from
  probe_from-accepted zero i m h e = absurd (cc)
  probe_from-accepted (suc n) i m h e =
      let m1 = select_port i m in
      let (found, m2, h2) = chip.probe_port m1 (chip.enter m1 h) in
      let w : World H = (m2, chip.exit m2 h2) in
      found_or_next found w (probe_from chip n (i + 1) w) (λ q. accepted m1 (chip.enter m1 h) q)
        (λ q. probe_from-accepted n (i + 1) m2 (chip.exit m2 h2) q) e
    where
      found_or_next :
          (b : Bool) (w : World H) (rest : Bool × World H)
          → ((b ≡ true) → P w.0)
          → ((rest.0 ≡ true) → P rest.1.0)
          → (if b then (true, w) else rest).0 ≡ true
          → P (if b then (true, w) else rest).1.0
      found_or_next true w rest here later q = here refl
      found_or_next false w rest here later q = later q

  -- What holds of the monitor of every port that probePort accepts holds of the monitor that probe
  -- finds.
  pub probe-accepted : (w : World H) → (probe chip w).0 ≡ true → P (probe chip w).1.0
  unfolding probe
  probe-accepted (m, h) e = probe_from-accepted chip.ports_count 0 m h e
