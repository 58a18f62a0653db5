-- ===== src/Cpu/Intel/Laws/Rendezvous.antt =====
-- A function that runs on each core in turn, as mp_rendezvous_no_intrs does in IntelCPUMonitor.cpp.
use fake_smc3_with_plugins.Cpu.Intel.{rendezvous}
use fake_smc3_with_plugins.Prelude.{
  length, get_or, set, ℕ, zero, suc, ◌<◌, ◌≡◌, refl, ap, subst, ◌≢◌, ◌⊎◌, inl, inr, List, [], ◌∷◌,
  arith,
}

-- A core that is among those that run the function.
abbrev pub IsAmong : ℕ → List ℕ → Type 0
IsAmong i [] = ⊥
IsAmong i (cpu ∷ order) = (i ≡ cpu) ⊎ IsAmong i order

pub get_or-set_self : (xs : List ℕ) (i v d : ℕ) → i < length xs → get_or (set xs i v) i d ≡ v
get_or-set_self [] i v d h = absurd (omega arith)
get_or-set_self (x ∷ xs) zero v d h = refl
get_or-set_self (x ∷ xs) (suc i) v d h = get_or-set_self xs i v d (omega arith)

pub get_or-set_ne : (xs : List ℕ) (i j v d : ℕ) → i ≢ j → get_or (set xs i v) j d ≡ get_or xs j d
get_or-set_ne [] i j v d h = refl
get_or-set_ne (x ∷ xs) zero zero v d h = absurd (h refl)
get_or-set_ne (x ∷ xs) zero (suc j) v d h = refl
get_or-set_ne (x ∷ xs) (suc i) zero v d h = refl
get_or-set_ne (x ∷ xs) (suc i) (suc j) v d h = get_or-set_ne xs i j v d (λ e. h (ap suc e))

module _ {X : Type 0} (P : X → Type 0) where
  rendezvous-kept :
      (order : List ℕ) (action : ℕ → X → X) (x : X)
      → ((cpu : ℕ) (y : X) → P y → P (action cpu y))
      → P x
      → P (rendezvous order action x)
  unfolding rendezvous
  rendezvous-kept [] action x kept h = h
  rendezvous-kept (cpu ∷ order) action x kept h =
      rendezvous-kept order action (action cpu x) kept (kept cpu x h)

module _ {X : Type 0} (S P : X → Type 0) where
  -- What a core establishes, and the others keep, holds at the end; `S` holds throughout.
  pub rendezvous-reaches :
      (order : List ℕ) (action : ℕ → X → X) (x : X) (i : ℕ)
      → IsAmong i order
      → ((cpu : ℕ) (y : X) → S y → S (action cpu y))
      → ((y : X) → S y → P (action i y))
      → ((cpu : ℕ) (y : X) → S y × P y → P (action cpu y))
      → S x
      → P (rendezvous order action x)
  unfolding rendezvous
  rendezvous-reaches [] action x i x7 safe made kept h = elim x7 [ ]
  rendezvous-reaches (cpu ∷ order) action x i (inl here) safe made kept h =
      (rendezvous-kept (λ y. S y × P y) order action (action cpu x)
        (λ c y q. (safe c y q.0, kept c y q))
        (safe cpu x h, subst (λ c. P (action c x)) here (made x h))).1
  rendezvous-reaches (cpu ∷ order) action x i (inr there) safe made kept h =
      rendezvous-reaches order action (action cpu x) i there safe made kept (safe cpu x h)
