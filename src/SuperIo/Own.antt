-- ===== src/SuperIo/Own.antt =====
-- plugins/SuperIOSensors: what a start of a monitor does between its calls of the SMC. `X` is the state
-- of the chip's class, its own fields and the hardware.
use fake_smc3_with_plugins.Prelude.{ℕ}
use fake_smc3_with_plugins.Smc.Device.{Device}
use fake_smc3_with_plugins.SuperIo.Bus.{Monitor}
use fake_smc3_with_plugins.SuperIo.Monitor.{World}

-- A reading of the chip.
unfoldable pub reading :
    {X : Type 0} → (Monitor → X → ℕ × X) → Device (World X) → ℕ × Device (World X)
reading read d =
    let (value, x) = read d.world.0 d.world.1 in (value, record d { world = (d.world.0, x) })

-- An assignment to a field of the object.
unfoldable pub change_own :
    {O H : Type 0} → (O → O) → Device (World (O × H)) → Device (World (O × H))
change_own f d = record d { world = (d.world.0, (f d.world.1.0, d.world.1.1)) }

-- A call that changes the object and the hardware.
unfoldable pub acting : {X : Type 0} → (Monitor → X → X) → Device (World X) → Device (World X)
acting act d = record d { world = (d.world.0, act d.world.0 d.world.1) }
