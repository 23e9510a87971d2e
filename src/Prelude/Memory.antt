-- ===== src/Prelude/Memory.antt =====
-- Memory as a function from addresses to cells, with the single write.
use mathlib.Core.Path.{◌≡◌}
use mathlib.Core.Logic.{◌≢◌}
use Prim.Native.Nat.{ℕ}
use native.Mathlib.Omega.{arith}
use mayv.Prelude.Tests.{◌==◌, if◌then◌else◌}

module _ {ℓ} {A : Type ℓ} where
  -- The memory after `*addr = v`.
  abbrev pub update : (ℕ → A) → ℕ → A → ℕ → A
  update mem addr v a = if a == addr then v else mem a

  pub update_self : (mem : ℕ → A) (addr : ℕ) (v : A) → update mem addr v addr ≡ v
  update_self mem addr v = ground arith

  pub update_ne : (mem : ℕ → A) (addr : ℕ) (v : A) (a : ℕ) → a ≢ addr → update mem addr v a ≡ mem a
  update_ne mem addr v a h = ground arith
