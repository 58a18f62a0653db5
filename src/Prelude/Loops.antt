-- ===== src/Prelude/Loops.antt =====
-- Loops over a range of indexes, and what they keep.
use Prim.Native.Nat.{ℕ, zero, suc, ◌+◌, ◌<◌, ◌≤◌}
use mathlib.Core.Path.{sym, subst}
use mathlib.Core.Bool.{Bool, true, false}
use mathlib.Core.Logic.{inl, inr}
use native.Mathlib.Omega.{arith}
use fake_smc3_with_plugins.Prelude.Tests.{if◌then◌else◌, ◌==◌, Bool-cases, ==→eq}

module _ {ℓ} {A : Type ℓ} where
  -- for (i = …; n more times; i++) a = body(i, a)
  unfoldable pub for_loop : ℕ → ℕ → (ℕ → A → A) → A → A
  for_loop zero i body a = a
  for_loop (suc n) i body a = for_loop n (i + 1) body (body i a)

module _ {ℓ κ} {A : Type ℓ} (P : A → Type κ) where
  pub for_loop-invariant :
      (n i : ℕ) (body : ℕ → A → A) (a : A)
      → ((j : ℕ) (b : A) → P b → P (body j b))
      → P a
      → P (for_loop n i body a)
  unfolding for_loop
  for_loop-invariant zero i body a step h = h
  for_loop-invariant (suc n) i body a step h =
      for_loop-invariant n (i + 1) body (body i a) step (step i a h)

  -- The same where the body is known for the loop's indexes only.
  pub for_loop-invariant_below :
      (n i : ℕ) (body : ℕ → A → A) (a : A)
      → ((j : ℕ) (b : A) → j < i + n → P b → P (body j b))
      → P a
      → P (for_loop n i body a)
  unfolding for_loop
  for_loop-invariant_below zero i body a step h = h
  for_loop-invariant_below (suc n) i body a step h =
      for_loop-invariant_below n (i + 1) body (body i a) (λ j b q. step j b (omega (arith, q)))
        (step i a (omega arith) h)

  -- What the body establishes at an index of the loop, and keeps at the others, holds at the end.
  pub for_loop-reaches :
      (n i k : ℕ) (body : ℕ → A → A) (a : A)
      → ((b : A) → P (body k b))
      → ((j : ℕ) (b : A) → P b → P (body j b))
      → i ≤ k
      → k < i + n
      → P (for_loop n i body a)
  unfolding for_loop
  for_loop-reaches zero i k body a made kept above below = absurd (omega arith)
  for_loop-reaches (suc n) i k body a made kept above below = elim (Bool-cases (i == k)) [
    | inl hit ↦
        for_loop-invariant n (i + 1) body (body i a) kept
          (subst (λ x. P (body x a)) (sym (==→eq i k hit)) (made a))
    | inr miss ↦ for_loop-reaches n (i + 1) k body (body i a) made kept (ground arith) (omega arith)
  ]

  -- Both branches of a test.
  pub if-both : (b : Bool) (x y : A) → P x → P y → P (if b then x else y)
  if-both true x y h k = h
  if-both false x y h k = k
