-- ===== src/Common/Samples.antt =====
-- The calls that the metrics of auth/metrics and cache/metrics make of the package `prometheus`, in
-- order. A series is a metric of a name with the values of its labels.
use Prim.Native.Nat.{ℕ, suc, ◌+◌}
use mathlib.Core.Path.{◌≡◌}
use mathlib.Core.Bool.{Bool, true, false, ◌&&◌}
use mathlib.Core.List.{List, [], ◌∷◌, ◌++◌}
use native.Mathlib.Omega.{arith}
use proxy_common.Common.Tests.{if◌then◌else◌}
use proxy_common.Common.Int.{ℤ}
use proxy_common.Common.Bytes.{Bytes, bytes_eq}

-- the options that name a metric, with the names of its labels; it has none if it is no vector
pub record Vec : Type 0 where
  pub namespace : Bytes
  pub subsystem : Bytes
  pub name : Bytes
  pub label_names : List Bytes

-- `vec.WithLabelValues(labels…)`
pub record Series : Type 0 where
  pub vec : Vec
  pub labels : List Bytes

-- `Inc()`, `Add(float64(n))`, `Set(float64(n))`, and one timer that observes its duration
pub data Sample : Type 0 where
  inc : Series → Sample
  add : Series → ℤ → Sample
  set : Series → ℤ → Sample
  observe : Series → Sample

unfoldable pub labels_eq : List Bytes → List Bytes → Bool
labels_eq [] [] = true
labels_eq [] (b ∷ bs) = false
labels_eq (a ∷ more) [] = false
labels_eq (a ∷ more) (b ∷ bs) = bytes_eq a b && labels_eq more bs

-- whether two metrics have the same name
unfoldable pub vec_eq : Vec → Vec → Bool
vec_eq v w =
    bytes_eq v.name w.name && (bytes_eq v.namespace w.namespace && bytes_eq v.subsystem w.subsystem)

unfoldable pub series_eq : Series → Series → Bool
unfolding labels_eq vec_eq
series_eq s t = vec_eq s.vec t.vec && labels_eq s.labels t.labels

-- how often a series is incremented
unfoldable pub increments : Series → List Sample → ℕ
unfolding series_eq
increments s [] = 0
increments s (inc t ∷ samples) = let n = increments s samples in if series_eq t s then suc n else n
increments s (add t k ∷ samples) = increments s samples
increments s (set t k ∷ samples) = increments s samples
increments s (observe t ∷ samples) = increments s samples

pub increments-append :
    (s : Series) (xs ys : List Sample) → increments s (xs ++ ys) ≡ increments s xs + increments s ys
unfolding increments
increments-append s [] ys = omega arith
increments-append s (inc t ∷ xs) ys = ground (arith, increments-append s xs ys)
increments-append s (add t k ∷ xs) ys = increments-append s xs ys
increments-append s (set t k ∷ xs) ys = increments-append s xs ys
increments-append s (observe t ∷ xs) ys = increments-append s xs ys
